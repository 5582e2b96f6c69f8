-- ===== src/Nanopb/RoundTrip/Layout.antt =====
-- Messages of required numbers: their wire format, and what it is that two of them agree.
use app_card.Base.{
  ℕ, zero, suc, ◌+◌, ◌≤◌, inl, inr, ◌<◌, ◌≡◌, ◌≢◌, List, [], ◌∷◌, ◌++◌, length, length-append, All,
  arith,
}
use mathlib.Core.List.{Mem, Memᴰ}
use mathlib.Core.HLevel.{⊥_prop}
use mathlib.Core.Logic.{∥∥₁_elim}
use mathlib.Core.List.Memᴰ.{head, tail, not-nil, cases_cons}
use native.Mathlib.Decide.{dec_lt}
use app_card.Nanopb.Pb.{PbField}
use app_card.Nanopb.Memory.{Memory, load}
use app_card.Nanopb.OStream.Varint.{varint, tag_number, length-varint}
use app_card.Nanopb.Environment.{Environment}
use app_card.Nanopb.Encoders.Emit.{IsBytes}
use app_card.Nanopb.Runtime.{Runtime}
use app_card.Nanopb.RoundTrip.Scalar.{coded, IsNumber}

-- How many bytes the fields take up, with the gaps in front of them.
abbrev pub span : List PbField → ℕ
span [] = 0
span (f ∷ fs) = f.data_offset + f.data_size + span fs

-- No field has the tag of the next.
abbrev pub Differ : PbField → List PbField → Type 0
Differ f [] = Unit {0}
Differ f (g ∷ fs) = (f.tag ≢ g.tag) × Differ g fs

-- The fields from `b` on hold the numbers that those from `a` on hold in `m`.
abbrev pub Agree : Memory → Memory → List PbField → ℕ → ℕ → Type 0
Agree m m' [] a b = Unit {0}
Agree m m' (f ∷ fs) a b =
    (load f.data_size m' (b + f.data_offset) ≡ load f.data_size m (a + f.data_offset))
    × Agree m m' fs (a + f.data_offset + f.data_size) (b + f.data_offset + f.data_size)

-- The indices below a number.
abbrev pub below : ℕ → List ℕ
below zero = []
below (suc n) = n ∷ below n

pub below-lt : (n k : ℕ) → n ≤ k → All (λ i. i < k) (below n)
below-lt zero k h = tt
below-lt (suc n) k h = (omega (arith, h), below-lt n k (omega (arith, h)))

Memᴰ-below : (n i : ℕ) → i < n → Memᴰ i (below n)
Memᴰ-below zero i h = absurd (omega arith)
Memᴰ-below (suc n) i h = elim (dec_lt i n) [
  | yes lt ↦ tail (Memᴰ-below n i lt)
  | no ge ↦ head (omega arith)
]

pub Mem-below : (n i : ℕ) → i < n → Mem i (below n)
Mem-below n i h = ∣ Memᴰ-below n i h ∣₁

not_below : (n i : ℕ) → n ≤ i → ¬ Memᴰ i (below n)
not_below zero i h m = not-nil m
not_below (suc n) i h m = elim (cases_cons m) [
  | inl e ↦ omega (arith, e, h)
  | inr back ↦ not_below n i (omega (arith, h)) back
]

pub no_Mem-below : (n i : ℕ) → n ≤ i → ¬ Mem i (below n)
no_Mem-below n i h m = ∥∥₁_elim m ⊥_prop (not_below n i h)

module _ (rt : Runtime) (env : Environment) (m : Memory) (is_bytes : IsBytes m) where
  -- A field with its tag.
  abbrev pub field_wire : (f : PbField) → IsNumber f → ℕ → List ℕ
  field_wire f n a =
      let c = coded rt env m f (a + f.data_offset) is_bytes n.number in
      varint (tag_number c.wire_type f.tag) ++ c.bytes

  -- The fields one after the other, the first behind `a`.
  abbrev pub flat : (fs : List PbField) → All IsNumber fs → ℕ → List ℕ
  flat [] h a = []
  flat (f ∷ fs) h a = field_wire f h.0 a ++ flat fs h.1 (a + f.data_offset + f.data_size)

  pub field_wire-length : (f : PbField) (n : IsNumber f) (a : ℕ) → 0 < length (field_wire f n a)
  field_wire-length f n a =
      let c = coded rt env m f (a + f.data_offset) is_bytes n.number in
      omega (
        arith,
        length-append (varint (tag_number c.wire_type f.tag)) c.bytes,
        (length-varint (tag_number c.wire_type f.tag)).0,
      )
