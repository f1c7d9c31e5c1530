-- ===== src/Db/Wrapper/Paging.antt =====
-- `Insert` and `Get`, `PageInsert` and `PageGet`.
use plairo.Common.{returns, panics, runs_on}
use plairo.Common.{ℕ, zero, suc, ◌-◌, ◌%◌, ◌<◌, ◌≤◌, ◌≡◌, ◌≢◌, refl, sym, ap, ◌∙◌, arith}
use plairo.Common.{List, [], ◌∷◌, ◌++◌, length, take, drop, Option, none, some, All, IsByte, true}
use plairo.Common.{if-cases, inl, inr}
use mathlib.Core.Path.{subst}
use native.Mathlib.Numerals.{sub-one}
use plairo.Db.Wrapper.{
  LevelDb, IsStore, found, failed, DbWrapper, Called, put_raw, insert_value, get_value, page_key,
  overwrite_first, next_page,
}
use plairo.Db.Wrapper.Obfuscation.{IsKey, obfuscate_value_twice}

-- The bytes that paging damages: `left` bytes on, and then at every multiple of the page size.
abbrev pub damaged : ℕ → ℕ → List ℕ → List ℕ
damaged max_page_size left [] = []
damaged max_page_size zero (x ∷ xs) = 0 ∷ damaged max_page_size (max_page_size - 1) xs
damaged max_page_size (suc left) (x ∷ xs) = x ∷ damaged max_page_size left xs

pub damaged_short :
    (n left : ℕ) (value : List ℕ) → length value ≤ left → damaged n left value ≡ value
damaged_short n left [] h = refl
damaged_short n zero (x ∷ xs) h = absurd (omega arith)
damaged_short n (suc left) (x ∷ xs) h = ap (λ t. x ∷ t) (damaged_short n left xs (omega arith))

pub damaged_split :
    (n left : ℕ) (value : List ℕ)
    → damaged n left value ≡ take left value ++ damaged n 0 (drop left value)
damaged_split n zero value = refl
damaged_split n (suc left) [] = refl
damaged_split n (suc left) (x ∷ xs) = ap (λ t. x ∷ t) (damaged_split n left xs)

-- The next page begins with the byte that was overwritten.
pub damaged_next :
    (n : ℕ) (value : List ℕ) → 0 < n → damaged n 0 value ≡ damaged n n (overwrite_first value)
damaged_next zero value h = elim h [ ]
damaged_next (suc n) [] h = refl
damaged_next (suc n) (x ∷ xs) h = rw sub-one refl

module _ (l : LevelDb) (store : IsStore l) where
  -- A wrapper whose values can be hidden and shown.
  abbrev pub IsOpen : DbWrapper l → Type 0
  IsOpen d = d.is_obfuscated ≡ true → IsKey d.obfuscation_key

  -- `d'` is `d` with `value` stored under `key`.
  pub record Stored (d d' : DbWrapper l) (key value : List ℕ) : Type 0 where
    pub same_flag : d'.is_obfuscated ≡ d.is_obfuscated
    pub same_key : d'.obfuscation_key ≡ d.obfuscation_key
    pub same_batch : d'.current_batch ≡ d.current_batch
    pub reads : get_value l d' key ≡ returns (found value)
    pub others : (j : List ℕ) → j ≢ key → get_value l d' j ≡ get_value l d j

  put_raw-Stored :
      (d d' : DbWrapper l) (key value hidden : List ℕ)
      → put_raw l d key hidden ≡ returns (d', none)
      → ((u : DbWrapper l)
          → u.is_obfuscated ≡ d.is_obfuscated
          → u.obfuscation_key ≡ d.obfuscation_key
          → l.get u.db key ≡ found hidden
          → get_value l u key ≡ returns (found value))
      → Stored d d' key value
  put_raw-Stored d d' key value hidden p shows = go (l.put d.db key hidden) refl p
    where
      go :
          (o : Option (LevelDb.Db l))
          → l.put d.db key hidden ≡ o
          → ◌≡◌ {A = Called l}
              (elim o [
                | none ↦ returns (d, some failed)
                | some db' ↦ returns (record d { db = db' }, none)
              ])
              (returns (d', none))
          → Stored d d' key value
      go none e q = absurd (cc)
      go (some db') e q =
          subst (λ u. Stored d u key value) (returned q)
            (record {
              same_flag = refl;
              same_key = refl;
              same_batch = refl;
              reads =
                  shows (record d { db = db' }) refl refl
                    (store.get-put_self d.db db' key hidden e);
              others = λ j ne.
                  unfold get_value in
                  rw (store.get-put_ne d.db db' key hidden j e ne, get_value) refl;
            })
        where
          returned :
              ◌≡◌ {A = Called l} (returns (record d { db = db' }, none)) (returns (d', none))
              → record d { db = db' } ≡ d'
          returned q = cc

  pub insert_value-Stored :
      (d d' : DbWrapper l) (key value : List ℕ)
      → IsOpen d
      → All IsByte value
      → insert_value l d key value ≡ returns (d', none)
      → Stored d d' key value
  unfolding insert_value
  insert_value-Stored d d' key value open_ bytes p = elim (if-cases d.is_obfuscated _ _ p) [
    | inl (on, q) ↦
        let (hidden, hides, _, shows) =
          obfuscate_value_twice d.obfuscation_key value (open_ on) bytes in
        put_raw-Stored d d' key value hidden (rw hides at q) (λ u same same_key e.
          unfold get_value in rw (e, get_value, same ∙ on, same_key, shows) refl)
    | inr (off, q) ↦
        put_raw-Stored d d' key value value q
          (λ u same same_key e. unfold get_value in rw (e, get_value, same ∙ off) refl)
  ]

  pub IsOpen-Stored :
      {d d' : DbWrapper l} {key value : List ℕ} → Stored d d' key value → IsOpen d → IsOpen d'
  IsOpen-Stored st open_ on = rw st.same_key (open_ (sym st.same_flag ∙ on))

  -- Inversion of a page that was stored and followed by others.
  pub next_page-eq :
      (m : Called l) (f : DbWrapper l → Called l) {d' : DbWrapper l}
      → next_page l m f ≡ returns (d', none)
      → (u : DbWrapper l) × (m ≡ returns (u, none)) × (f u ≡ returns (d', none))
  next_page-eq (returns (d, none)) f p = (d, refl, p)
  next_page-eq (returns (d, some e)) f p = absurd (cc)
  next_page-eq panics f p = absurd (cc)
  next_page-eq runs_on f p = absurd (cc)

  -- Two pages have the same key only if their numbers are the same byte.
  pub page_key_ne : (key : List ℕ) (p q : ℕ) → p < q → q < 256 → page_key key p ≢ page_key key q
  page_key_ne [] p q h k e = same (cc)
    where
      same : p % 256 ≡ q % 256 → ⊥
      same r = omega arith
  page_key_ne (x ∷ key) p q h k e = page_key_ne key p q h k (cc)
