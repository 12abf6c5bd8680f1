-- ===== src/Repo/Renaming.antt =====
-- The unique manual names, under the updates of internal/repo/upstreams.go.
use pio.Base.{◌≡◌, refl, false, [], ◌∷◌, GoString, str_eq, arith}
use pio.Model.{UpstreamProxy}
use pio.Repo.Rows.{Rows, manual_name_taken, change_row}
use pio.Repo.Manual.{ManualProxyInput, rewrite}
use pio.Repo.Sound.{UniqueNames, KeepsKeys, KeepsNames}

module _ (id : GoString) (f : UpstreamProxy → UpstreamProxy) (keeps : KeepsKeys f)
    (names : KeepsNames f) where
  taken-change_row :
      (i n : GoString) (us : Rows)
      → manual_name_taken i n (change_row id f us) ≡ manual_name_taken i n us
  unfolding manual_name_taken change_row
  taken-change_row i n [] = refl
  taken-change_row i n (u ∷ us) = ground (arith, keeps u, names u, taken-change_row i n us)

  pub change_row-UniqueNames : (us : Rows) → UniqueNames us → UniqueNames (change_row id f us)
  unfolding change_row
  change_row-UniqueNames [] h = tt
  change_row-UniqueNames (u ∷ us) h = (
    λ m. ground (arith, keeps u, names u, taken-change_row u.id u.manual_name us, h.0),
    change_row-UniqueNames us h.1,
  )

module _ (id : GoString) (input : ManualProxyInput) (enc : GoString) where
  -- A name other than the new one is taken by no more rows than before.
  taken-rewrite :
      (i n : GoString) (us : Rows)
      → str_eq input.name n ≡ false
      → manual_name_taken i n us ≡ false
      → manual_name_taken i n (change_row id (rewrite input enc) us) ≡ false
  unfolding manual_name_taken change_row
  taken-rewrite i n [] ne h = refl
  taken-rewrite i n (u ∷ us) ne h = ground (arith, taken-rewrite i n us ne)

  -- The row itself does not count against its new name.
  taken-rewrite_self :
      (us : Rows)
      → manual_name_taken id input.name us ≡ false
      → manual_name_taken id input.name (change_row id (rewrite input enc) us) ≡ false
  unfolding manual_name_taken change_row
  taken-rewrite_self [] h = refl
  taken-rewrite_self (u ∷ us) h = ground (arith, taken-rewrite_self us)

  pub rewrite-UniqueNames :
      (us : Rows)
      → manual_name_taken id input.name us ≡ false
      → UniqueNames us
      → UniqueNames (change_row id (rewrite input enc) us)
  unfolding manual_name_taken change_row
  rewrite-UniqueNames [] free h = tt
  rewrite-UniqueNames (u ∷ us) free h = (
    λ m. ground (arith, taken-rewrite_self us, taken-rewrite u.id u.manual_name us, h.0),
    rewrite-UniqueNames us (ground arith) h.1,
  )
