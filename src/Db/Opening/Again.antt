-- ===== src/Db/Opening/Again.antt =====
-- A database that `NewDBwrapper` opened, opened again.
use plairo.Common.{
  ℕ, ◌≡◌, ◌⊎◌, refl, Bool, true, false, Option-cases, inl, inr, unsome, List, Option, none, some,
}
use mathlib.Core.Path.{subst}
use plairo.Db.Wrapper.{LevelDb, IsStore, Reply, found, no_value, not_found, failed, DbWrapper}
use plairo.Db.Opening.{generate_obfuscation_key, obf_key_key, new_db_wrapper}

Reply-cases :
    (r : Reply)
    → ((key : List ℕ) × (r ≡ found key)) ⊎ ((r ≡ no_value failed) ⊎ (r ≡ no_value not_found))
Reply-cases (found key) = inl (key, refl)
Reply-cases (no_value failed) = inr (inl refl)
Reply-cases (no_value not_found) = inr (inr refl)

module _ (l : LevelDb) (store : IsStore l) where
  -- The database that `NewDBwrapper` leaves, opened again with whatever random number, gives the same
  -- wrapper: the obfuscation key is drawn at most once.
  pub new_db_wrapper-again :
      (opened : Option (LevelDb.Db l)) (rnd rnd' : ℕ) (is_obfuscated : Bool) (d : DbWrapper l)
      → new_db_wrapper l opened rnd is_obfuscated ≡ some d
      → new_db_wrapper l (some d.db) rnd' is_obfuscated ≡ some d
  unfolding new_db_wrapper
  new_db_wrapper-again none rnd rnd' is_obfuscated d p = cc
  new_db_wrapper-again (some db) rnd rnd' false d p =
      subst (λ e. new_db_wrapper l (some e.db) rnd' false ≡ some e) (unsome p) refl
  new_db_wrapper-again (some db) rnd rnd' true d p = elim (Reply-cases (l.get db obf_key_key)) [
    | inl (key, r) ↦
        subst (λ e. new_db_wrapper l (some e.db) rnd' true ≡ some e)
          (unsome (rw (new_db_wrapper, r) at p)) (rw (new_db_wrapper, r) refl)
    | inr (inl r) ↦
        subst (λ e. new_db_wrapper l (some e.db) rnd' true ≡ some e)
          (unsome (rw (new_db_wrapper, r) at p)) (rw (new_db_wrapper, r) refl)
    | inr (inr r) ↦ elim (Option-cases (l.put db obf_key_key (generate_obfuscation_key rnd))) [
      | inl q ↦ absurd (no_wrapper (rw (new_db_wrapper, r, q) at p))
      | inr (db', q) ↦
          subst (λ e. new_db_wrapper l (some e.db) rnd' true ≡ some e)
            (unsome (rw (new_db_wrapper, r, q) at p))
            (rw
              (
                new_db_wrapper,
                store.get-put_self db db' obf_key_key (generate_obfuscation_key rnd) q,
              )
              refl)
    ]
  ]
    where
      no_wrapper : none ≡ some d → ⊥
      no_wrapper q = cc
