-- ===== src/Db/Wrapper/RoundTrip.antt =====
-- `PageGet` after `PageInsert`.
use plairo.Common.{returns}
use plairo.Common.{
  ℕ, zero, suc, ◌+◌, ◌-◌, ◌*◌, ◌<◌, ◌≤◌, ◌≡◌, ◌≢◌, refl, sym, ap, ◌∙◌, arith, ◌==◌, ltb, ltb→lt,
}
use plairo.Common.{List, [], ◌∷◌, ◌++◌, length, take, drop, none, some, All, IsByte, false}
use plairo.Common.{Bool-cases, inl, inr, append_assoc, length-append, ==_iff, All-append}
use plairo.Db.Wrapper.{
  LevelDb, IsStore, found, DbWrapper, get_value, page_key, overwrite_first, page_insert_loop,
  page_insert, page_get_loop, page_get,
}
use plairo.Db.Wrapper.Paging.{
  damaged, damaged_short, damaged_split, damaged_next, IsOpen, Stored, insert_value-Stored,
  IsOpen-Stored, next_page-eq, page_key_ne,
}

length-take_le : (n : ℕ) (xs : List ℕ) → n ≤ length xs → length (take n xs) ≡ n
length-take_le zero xs h = refl
length-take_le (suc n) [] h = absurd (omega arith)
length-take_le (suc n) (x ∷ xs) h = ap suc (length-take_le n xs (omega arith))

take-take_append : (n : ℕ) (xs ys : List ℕ) → n ≤ length xs → take n (take n xs ++ ys) ≡ take n xs
take-take_append zero xs ys h = refl
take-take_append (suc n) [] ys h = absurd (omega arith)
take-take_append (suc n) (x ∷ xs) ys h = ap (λ t. x ∷ t) (take-take_append n xs ys (omega arith))

-- A value of more than one page leaves room for a second one.
room : (n left : ℕ) (value : List ℕ) → n < length value → length value ≤ suc left * n → 0 < left
room n zero value a b = absurd (omega arith)
room n (suc left) value a b = omega arith

pub length-overwrite_drop :
    (n : ℕ) (xs : List ℕ) → length (overwrite_first (drop n xs)) ≡ length xs - n
length-overwrite_drop zero [] = omega arith
length-overwrite_drop zero (x ∷ xs) = omega arith
length-overwrite_drop (suc n) [] = omega arith
length-overwrite_drop (suc n) (x ∷ xs) = omega (arith, length-overwrite_drop n xs)

pub All-take : (n : ℕ) (xs : List ℕ) → All IsByte xs → All IsByte (take n xs)
All-take zero xs a = tt
All-take (suc n) [] a = tt
All-take (suc n) (x ∷ xs) a = (a.0, All-take n xs a.1)

pub All-overwrite_drop :
    (n : ℕ) (xs : List ℕ) → All IsByte xs → All IsByte (overwrite_first (drop n xs))
All-overwrite_drop zero [] a = tt
All-overwrite_drop zero (x ∷ xs) a = (omega arith, a.1)
All-overwrite_drop (suc n) [] a = tt
All-overwrite_drop (suc n) (x ∷ xs) a = All-overwrite_drop n xs a.1

module _ (l : LevelDb) (d : DbWrapper l) (key : List ℕ) (page n : ℕ) (bytes : List ℕ)
    (at : get_value l d (page_key key page) ≡ returns (found bytes)) where
  -- A full page is joined on, and the next one is read.
  page_get_more :
      (fuel : ℕ) (res : List ℕ)
      → length bytes ≡ n + 1
      → page_get_loop l (suc fuel) d key page n res
        ≡ page_get_loop l fuel d key (suc page) n (res ++ take n bytes)
  unfolding page_get_loop
  page_get_more fuel res full =
      rw (at, page_get_loop, (==_iff _ _).1 full, page_get_loop, one_less) refl
    where
      one_less : length bytes - 1 ≡ n
      one_less = omega arith

  -- Any other page is the last one.
  page_get_last :
      (fuel : ℕ) (res : List ℕ)
      → length bytes ≤ n
      → page_get_loop l (suc fuel) d key page n res ≡ returns (some (res ++ bytes))
  unfolding page_get_loop
  page_get_last fuel res short = rw (at, page_get_loop, not_full) refl
    where
      not_full : (length bytes == n + 1) ≡ false
      not_full = ground arith

module _ (l : LevelDb) (store : IsStore l) (key : List ℕ) (n : ℕ) (positive : 0 < n) where
  -- What a stored value guarantees: other keys are left alone, and reading gives the damaged value.
  record Paged (d d' : DbWrapper l) (page : ℕ) (value : List ℕ) : Type 0 where
    others :
        (j : List ℕ)
        → ((q : ℕ) → page ≤ q → q < 256 → j ≢ page_key key q)
        → get_value l d' j ≡ get_value l d j
    reads :
        (fuel : ℕ) (res : List ℕ)
        → length value ≤ fuel * n
        → 0 < fuel
        → page_get_loop l fuel d' key page n res ≡ returns (some (res ++ damaged n n value))

  last_page :
      (d d' : DbWrapper l) (page : ℕ) (value : List ℕ)
      → page < 256
      → length value ≤ n
      → Stored l store d d' (page_key key page) value
      → Paged d d' page value
  last_page d d' page value small short st = record {
    others = λ j ne. st.others j (ne page (omega arith) small);
    reads = elim [
      | zero ↦ λ res h some_fuel. absurd (omega arith)
      | suc fuel ↦ λ res h some_fuel.
          page_get_last l d' key page n value st.reads fuel res short
          ∙ ap (λ t. returns (some (res ++ t))) (sym (damaged_short n n value short))
    ];
  }

  more_pages :
      (d u d' : DbWrapper l) (page : ℕ) (value : List ℕ)
      → suc page < 256
      → n < length value
      → Stored l store d u (page_key key page) (take n value ++ (0 ∷ []))
      → Paged u d' (suc page) (overwrite_first (drop n value))
      → Paged d d' page value
  more_pages d u d' page value small long st rest = record {
    others = λ j ne.
        rest.others j (λ q le lt. ne q (omega arith) lt)
        ∙ st.others j (ne page (omega arith) (omega arith));
    reads = elim [
      | zero ↦ λ res h some_fuel. absurd (omega arith)
      | suc fuel ↦ λ res h some_fuel.
          page_get_more l d' key page n (take n value ++ (0 ∷ [])) first_page fuel res full
          ∙ rest.reads fuel _ (omega (arith, length-overwrite_drop n value))
              (room n fuel value long h)
          ∙ ap (λ t. returns (some t)) (joined res)
    ];
  }
    where
      first_page : get_value l d' (page_key key page) ≡ returns (found (take n value ++ (0 ∷ [])))
      first_page =
          rest.others (page_key key page) (λ q le lt. page_key_ne l store key page q le lt)
          ∙ st.reads

      full : length (take n value ++ (0 ∷ [])) ≡ n + 1
      full =
          omega (arith, length-append (take n value) (0 ∷ []), length-take_le n value (omega arith))

      joined :
          (res : List ℕ)
          → (res ++ take n (take n value ++ (0 ∷ [])))
              ++ damaged n n (overwrite_first (drop n value))
            ≡ res ++ damaged n n value
      joined res =
          rw
            (
              take-take_append n value (0 ∷ []) (omega arith),
              damaged_split n n value,
              damaged_next n (drop n value) positive,
            )
            (append_assoc res (take n value) _)

  page_insert_loop-Paged :
      (fuel : ℕ) (d d' : DbWrapper l) (page left : ℕ) (value : List ℕ)
      → IsOpen l store d
      → All IsByte value
      → page + left ≡ 256
      → 0 < left
      → length value ≤ left * n
      → page_insert_loop l fuel d key page value n ≡ returns (d', none)
      → Paged d d' page value
  unfolding page_insert_loop
  page_insert_loop-Paged zero d d' page left value open_ bytes pages some_left fits p = absurd (cc)
  page_insert_loop-Paged (suc fuel) d d' page zero value open_ bytes pages some_left fits p =
      absurd (omega arith)
  page_insert_loop-Paged (suc fuel) d d' page (suc left) value open_ bytes pages some_left fits p =
      elim (Bool-cases (ltb n (length value))) [
        | inl long ↦
            let (u, q, v) = next_page-eq l store _ _ (rw (long, page_insert_loop) at p) in
            let first =
              insert_value-Stored l store d u (page_key key page) (take n value ++ (0 ∷ [])) open_
                (All-append IsByte (take n value) (0 ∷ []) (All-take n value bytes) (omega arith))
                q in
            more_pages d u d' page value
              (omega (arith, room n left value (ltb→lt n (length value) long) fits))
              (ltb→lt n (length value) long) first
              (page_insert_loop-Paged fuel u d' (suc page) left (overwrite_first (drop n value))
                (IsOpen-Stored l store first open_) (All-overwrite_drop n value bytes) (omega arith)
                (room n left value (ltb→lt n (length value) long) fits)
                (omega (arith, length-overwrite_drop n value)) v)
        | inr short ↦ last_page d d' page value (omega arith) (ground arith) (
            insert_value-Stored l store d d' (page_key key page) value open_ bytes
              (rw (short, page_insert_loop) at p))
      ]

  -- If `PageInsert` stores a value of bytes that takes at most 256 pages without an error, then
  -- `PageGet` under the same key returns it with the byte at every positive multiple of the page
  -- size replaced by 0.
  pub page_get-page_insert :
      (d d' : DbWrapper l) (value : List ℕ)
      → IsOpen l store d
      → All IsByte value
      → length value ≤ 256 * n
      → page_insert l d key value n ≡ returns (d', none)
      → page_get l d' key n ≡ returns (some (damaged n n value))
  unfolding page_insert page_get
  page_get-page_insert d d' value open_ bytes fits p =
      (page_insert_loop-Paged (suc (length value)) d d' 0 256 value open_ bytes (omega arith)
          (omega arith) fits p).reads
        257 [] (omega arith) (omega arith)
