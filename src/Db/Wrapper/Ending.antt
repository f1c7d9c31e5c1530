-- ===== src/Db/Wrapper/Ending.antt =====
-- `PageInsert` ends: its loop takes bytes off the value in every round.
use plairo.Common.{Outcome, returns}
use plairo.Common.{ℕ, zero, suc, ◌<◌, ◌≡◌, refl, arith, ltb, ltb→lt, Bool, true, false}
use plairo.Common.{
  List, [], ◌∷◌, ◌++◌, length, take, drop, Option, none, some, All, IsByte, if◌then◌else◌,
  Bool-cases, Option-cases, inl, inr, All-append,
}
use plairo.Db.Wrapper.{
  LevelDb, DbError, failed, DbWrapper, put_raw, insert_value, page_key, overwrite_first, Called,
  next_page, page_insert_loop, page_insert,
}
use plairo.Db.Wrapper.Obfuscation.{IsKey, obfuscate_value_twice}
use plairo.Db.Wrapper.RoundTrip.{All-take, All-overwrite_drop, length-overwrite_drop}

module _ (l : LevelDb) where
  abbrev IsOpen : DbWrapper l → Type 0
  IsOpen d = d.is_obfuscated ≡ true → IsKey d.obfuscation_key

  -- The call returns, with an error or a wrapper that is still open.
  record Returns (m : Outcome (DbWrapper l × Option DbError)) : Type 0 where
    wrapper : DbWrapper l
    error : Option DbError
    is_open : IsOpen wrapper
    returned : m ≡ returns (wrapper, error)

  put_raw-Returns :
      (d : DbWrapper l) (key value : List ℕ) → IsOpen d → Returns (put_raw l d key value)
  put_raw-Returns d key value open_ = elim (Option-cases (l.put d.db key value)) [
    | inl n ↦ record {
      wrapper = d;
      error = some failed;
      is_open = open_;
      returned = rw (n, put_raw) refl;
    }
    | inr (db', q) ↦ record {
      wrapper = record d { db = db' };
      error = none;
      is_open = open_;
      returned = rw (q, put_raw) refl;
    }
  ]

  if-Returns :
      (b : Bool) (m m' : Called l)
      → (b ≡ true → Returns m)
      → (b ≡ false → Returns m')
      → Returns (if b then m else m')
  if-Returns true m m' on off = on refl
  if-Returns false m m' on off = off refl

  insert_value-Returns :
      (d : DbWrapper l) (key value : List ℕ)
      → IsOpen d
      → All IsByte value
      → Returns (insert_value l d key value)
  unfolding insert_value
  insert_value-Returns d key value open_ bytes =
      if-Returns d.is_obfuscated _ _
        (λ on.
          let (hidden, hides, _, _) =
            obfuscate_value_twice d.obfuscation_key value (open_ on) bytes in
          rw hides (put_raw-Returns d key hidden open_))
        (λ off. put_raw-Returns d key value open_)

  next_page-Returns :
      (m : Called l) (f : DbWrapper l → Called l)
      → Returns m
      → ((u : DbWrapper l) → IsOpen u → Returns (f u))
      → Returns (next_page l m f)
  next_page-Returns m f r after = elim (Option-cases r.error) [
    | inl n ↦ rw (r.returned, n) (after r.wrapper r.is_open)
    | inr (e, q) ↦ record {
      wrapper = r.wrapper;
      error = some e;
      is_open = r.is_open;
      returned = rw (r.returned, q) refl;
    }
  ]

  page_insert_loop-Returns :
      (fuel : ℕ) (d : DbWrapper l) (key value : List ℕ) (page n : ℕ)
      → IsOpen d
      → All IsByte value
      → 0 < n
      → length value < fuel
      → Returns (page_insert_loop l fuel d key page value n)
  unfolding page_insert_loop
  page_insert_loop-Returns zero d key value page n open_ bytes positive enough =
      absurd (omega arith)
  page_insert_loop-Returns (suc fuel) d key value page n open_ bytes positive enough =
      elim (Bool-cases (ltb n (length value))) [
        | inl long ↦
            rw (long, page_insert_loop)
              (next_page-Returns _ _
                (insert_value-Returns d (page_key key page) (take n value ++ (0 ∷ [])) open_ (
                  All-append IsByte (take n value) (0 ∷ []) (All-take n value bytes) (omega arith)))
                (λ u u_open.
                  page_insert_loop-Returns fuel u key (overwrite_first (drop n value)) (suc page) n
                    u_open (All-overwrite_drop n value bytes) positive
                    (omega (arith, length-overwrite_drop n value, ltb→lt n (length value) long))))
        | inr short ↦
            rw (short, page_insert_loop)
              (insert_value-Returns d (page_key key page) value open_ bytes)
      ]

  -- With pages of one byte or more, and an obfuscation key where values are obfuscated, `PageInsert`
  -- of bytes returns: it neither panics nor goes on past the value's length in rounds.
  pub page_insert-returns :
      (n : ℕ)
      → 0 < n
      → (d : DbWrapper l) (key value : List ℕ) → (d.is_obfuscated ≡ true → IsKey d.obfuscation_key)
      → All IsByte value
      → (d' : DbWrapper l) × (e : Option DbError) × (page_insert l d key value n ≡ returns (d', e))
  unfolding page_insert
  page_insert-returns n positive d key value open_ bytes =
      let r =
        page_insert_loop-Returns (suc (length value)) d key value 0 n open_ bytes positive
          (omega arith) in
      (r.wrapper, r.error, r.returned)
