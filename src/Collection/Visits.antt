-- ===== src/Collection/Visits.antt =====
-- What a loop over an IndexIterable visits.
use ren_general.Base.{
  suc_plus, ℕ, zero, suc, ◌+◌, ◌≡◌, refl, true, false, List, [], ◌∷◌, ltb, arith,
}
use ren_general.Exception.{ok}
use ren_general.Collection.{begin, advance, differs, value, visit}

at_end : (position count : ℕ) → position + 0 ≡ count → ltb position count ≡ false
at_end position count e = ground arith

inside : (position n count : ℕ) → position + suc n ≡ count → ltb position count ≡ true
inside position n count e = ground arith

module _ {V : Type 0} (count : ℕ) (get_value : ℕ → V) where
  -- The values of a number of positions from one on.
  abbrev pub values_from : ℕ → ℕ → List V
  values_from position zero = []
  values_from position (suc n) = get_value position ∷ values_from (suc position) n

  visit-values_from :
      (n extra position : ℕ)
      → position + n ≡ count
      → visit count get_value (suc n + extra) (record { position = position })
        ≡ ok (values_from position n)
  unfolding visit differs value advance
  visit-values_from zero extra position e = rw (suc_plus zero extra, at_end position count e) refl
  visit-values_from (suc n) extra position e =
      rw
        (
          suc_plus (suc n) extra,
          inside position n count e,
          visit-values_from n extra (suc position) (omega (arith, e)),
        )
        refl

  -- On fuel for one round more than GetCount, or any more, the loop ends and has visited the values
  -- from that at 0 to that before GetCount, in order.
  pub visit-begin :
      (extra : ℕ)
      → visit count get_value (suc count + extra) (begin count get_value) ≡ ok (values_from 0 count)
  unfolding begin
  visit-begin extra = visit-values_from count extra 0 (omega arith)
