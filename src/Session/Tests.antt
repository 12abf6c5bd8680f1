-- ===== src/Session/Tests.antt =====
-- Runs of the session store with one session.
use pio.Base.{
  ◌+◌, ◌≡◌, refl, false, [], ◌∷◌, codes, str_discrete, str_eq, arith, ltb, ite, if◌then◌else◌,
}
use pio.Base.Map.{find}
use pio.Session.{SessionStore, issue, validate}
use pio.Session.Lifetime.{validate-issue}

abbrev logged_in : SessionStore
logged_in = record { ttl = 60; tokens = (codes "t1", 70) ∷ [] }

validate-issue_example : (validate 50 (codes "t1") (issue 20 20 (codes "t2") logged_in).1).0 ≡ (
    if str_eq (codes "t1") []
    then false
    else ite
        (str_discrete (codes "t2") (codes "t1"))
        (ltb 50 (20 + 60))
        (validate 50 (codes "t1") logged_in).0)
validate-issue_example =
    validate-issue 20 20 50 (codes "t2") (codes "t1") logged_in (unfold find in (refl, tt))
      (omega arith)
