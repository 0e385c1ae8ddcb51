-- ===== src/Mux/Entry.antt =====
-- server/mux.c: the 32-bit entries of the router's tables, and the search for a destination's slot.
use fcp_support.Base.{
  ℕ, zero, suc, ◌+◌, ◌*◌, ◌%◌, ◌<◌, List, [], ◌∷◌, get_or, set, map, length, ◌≢◌,
}
use fcp_support.Base.{◌≡◌, refl, ap, ◌∙◌, arith, pos, negsuc, ◌==◌, Bool-cases, ==_iff}
use fcp_support.Base.{bit_and, bit_or, ◌⊎◌, inl, inr, false}
use fcp_support.Base.Bits.{bit_and-0xfff, bit_or_shifted}
use fcp_support.Mux.{entry_source, entry_sink, set_source, find_router_slot, pin_index}

-- Routing an entry to a source gives it that source and keeps its destination.
pub set_source_lem :
    (v pin : ℕ)
    → (entry_source (set_source v pin) ≡ pin) × (entry_sink (set_source v pin) ≡ entry_sink v)
unfolding set_source
set_source_lem v pin =
    let whole : bit_or (bit_and v 0xfff) (pin * 4096) ≡ pin * 4096 + v % 4096 =
      rw (bit_and-0xfff v) (bit_or_shifted (v % 4096) pin (omega arith)) in
    (
      rw whole (omega arith),
      rw (whole, bit_and-0xfff (pin * 4096 + v % 4096), bit_and-0xfff v) (omega arith),
    )

-- Writing an item that `f` does not tell from the old one.
pub map-set_same {ℓ κ} :
    {A : Type ℓ} {B : Type κ} (f : A → B) (d : A) (xs : List A) (i : ℕ) (v : A)
    → f v ≡ f (get_or xs i d)
    → map f (set xs i v) ≡ map f xs
map-set_same f d [] i v h = refl
map-set_same f d (x ∷ xs) zero v h = ap (λ t. t ∷ map f xs) h
map-set_same f d (x ∷ xs) (suc i) v h = ap (λ t. f x ∷ t) (map-set_same f d xs i v h)

-- Entry `i` is the first one for the destination `pin`.
pub record IsSlot (table : List ℕ) (pin i : ℕ) : Type 0 where
  pub inside : i < length table
  pub found : entry_sink (get_or table i 0) ≡ pin
  pub first : (j : ℕ) → j < i → entry_sink (get_or table j 0) ≢ pin

IsSlot-zero : (v pin : ℕ) (vs : List ℕ) → entry_sink v ≡ pin → IsSlot (v ∷ vs) pin 0
IsSlot-zero v pin vs h = record {
  inside = omega arith;
  found = h;
  first = λ j l. absurd (omega arith);
}

IsSlot-suc :
    (v pin : ℕ) (vs : List ℕ) (i : ℕ)
    → entry_sink v ≢ pin
    → IsSlot vs pin i
    → IsSlot (v ∷ vs) pin (suc i)
IsSlot-suc v pin vs i n s = record {
  inside = omega (arith, s.inside);
  found = s.found;
  first = before;
}
  where
    before : (j : ℕ) → j < suc i → entry_sink (get_or (v ∷ vs) j 0) ≢ pin
    before zero l = n
    before (suc j) l = s.first j (omega arith)

-- The search gives the first entry for the destination, or -1 if the table has none.
pub find_router_slot_lem :
    (table : List ℕ) (pin k : ℕ)
    → ((i : ℕ) × (find_router_slot table pin k ≡ pos (k + i)) × IsSlot table pin i)
      ⊎ ((find_router_slot table pin k ≡ negsuc 0)
          × ((j : ℕ) → j < length table → entry_sink (get_or table j 0) ≢ pin))
unfolding find_router_slot
find_router_slot_lem [] pin k = inr (refl, λ j l. absurd (omega arith))
find_router_slot_lem (v ∷ vs) pin k = elim (Bool-cases (entry_sink v == pin)) [
  | inl here ↦ inl (0, rw here (ap pos (omega arith)), IsSlot-zero v pin vs ((==_iff _ _).0 here))
  | inr other ↦ elim (find_router_slot_lem vs pin (k + 1)) [
    | inl (i, e, s) ↦
        inl (suc i, rw other (e ∙ ap pos (omega arith)), IsSlot-suc v pin vs i (differs other) s)
    | inr (e, absent) ↦ inr (rw other e, nowhere (differs other) absent)
  ]
]
  where
    differs : (entry_sink v == pin) ≡ false → entry_sink v ≢ pin
    differs h e = cc ((==_iff (entry_sink v) pin).1 e)

    nowhere :
        entry_sink v ≢ pin
        → ((j : ℕ) → j < length vs → entry_sink (get_or vs j 0) ≢ pin)
        → (j : ℕ) → j < length (v ∷ vs)
        → entry_sink (get_or (v ∷ vs) j 0) ≢ pin
    nowhere n absent zero l = n
    nowhere n absent (suc j) l = absent j (omega arith)

-- An input that no earlier input shares its pin with is found by its pin.
pub pin_index_lem :
    (pins : List ℕ) (value k : ℕ)
    → value < length pins
    → ((j : ℕ) → j < value → get_or pins j 0 ≢ get_or pins value 0)
    → pin_index pins (get_or pins value 0) k ≡ k + value
unfolding pin_index
pin_index_lem [] value k l first = absurd (omega arith)
pin_index_lem (p ∷ ps) zero k l first = ground arith
pin_index_lem (p ∷ ps) (suc value) k l first = elim (Bool-cases (p == get_or ps value 0)) [
  | inl same ↦ absurd (first 0 (omega arith) ((==_iff _ _).0 same))
  | inr other ↦ rw other (
      pin_index_lem ps value (k + 1) (omega arith) (λ j b. first (suc j) (omega arith))
      ∙ omega arith)
]
