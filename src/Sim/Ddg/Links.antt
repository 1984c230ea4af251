-- ===== src/Sim/Ddg/Links.antt =====
-- Double links between items, and the links of `buildDDG`.
use Prim.Native.Nat.{ℕ}
use impact.Prelude.{◌≡◌, true, none, some, slot, is_some, arith, ◌⊎◌, inl, inr}
use impact.Sim.Item.{Heap, fulfilled, all_linked}
use impact.Sim.Item.Laws.{all_linked-slot, slot-all_linked}
use impact.Sim.Ddg.Steps.{SameData, IsLinkOf, link, Steps, stop, step}

-- The read `i` of `p` and the write `j` of `q` name the same data and point at one another.
pub record IsDoubleLink (h : Heap) (p i q j : ℕ) : Type 0 where
  pub input : slot (h p).input i ≡ some q
  pub output : slot (h q).output j ≡ some p
  pub same : SameData h p i q j

-- Each pointer in an `input` or `output` vector is one half of a double link.
pub record IsLinked (h : Heap) : Type 0 where
  pub inputs : (p i q : ℕ) → slot (h p).input i ≡ some q → (j : ℕ) × IsDoubleLink h p i q j
  pub outputs : (q j p : ℕ) → slot (h q).output j ≡ some p → (i : ℕ) × IsDoubleLink h p i q j

SameData-link :
    (h h' : Heap) (a b c d p i q j : ℕ)
    → IsLinkOf h h' a b c d
    → SameData h p i q j
    → SameData h' p i q j
SameData-link h h' a b c d p i q j l s = record {
  attr = s.attr;
  idx = s.idx;
  read_attr = cc ((l.shape p).read_attr, s.read_attr);
  read_idx = cc ((l.shape p).read_idx, s.read_idx);
  write_attr = cc ((l.shape q).write_attr, s.write_attr);
  write_idx = cc ((l.shape q).write_idx, s.write_idx);
}

module _ (h h' : Heap) (a b c d : ℕ) (new : SameData h a b c d)
    (free_in : slot (h a).input b ≡ none) (free_out : slot (h c).output d ≡ none)
    (l : IsLinkOf h h' a b c d) where
  -- The link that is added, and each link that was there.
  IsDoubleLink-new : IsDoubleLink h' a b c d
  IsDoubleLink-new = record {
    input = ground (arith, l.input a b);
    output = ground (arith, l.output c d);
    same = SameData-link h h' a b c d a b c d l new;
  }

  IsDoubleLink-old : (p i q j : ℕ) → IsDoubleLink h p i q j → IsDoubleLink h' p i q j
  IsDoubleLink-old p i q j s = record {
    input = ground (arith, l.input p i, s.input);
    output = ground (arith, l.output q j, s.output);
    same = SameData-link h h' a b c d p i q j l s.same;
  }

  input_cases :
      (p i q : ℕ)
      → slot (h' p).input i ≡ some q
      → ((p ≡ a) × (i ≡ b) × (q ≡ c)) ⊎ (slot (h p).input i ≡ some q)
  input_cases p i q e = ground (arith, l.input p i)

  output_cases :
      (q j p : ℕ)
      → slot (h' q).output j ≡ some p
      → ((q ≡ c) × (j ≡ d) × (p ≡ a)) ⊎ (slot (h q).output j ≡ some p)
  output_cases q j p e = ground (arith, l.output q j)

  IsLinked-link : IsLinked h → IsLinked h'
  IsLinked-link k = record {
    inputs = λ p i q e. elim (input_cases p i q e) [
      | inl (x, y, z) ↦ (d, rw (x, y, z) IsDoubleLink-new)
      | inr old ↦ let (j, s) = k.inputs p i q old in (j, IsDoubleLink-old p i q j s)
    ];
    outputs = λ q j p e. elim (output_cases q j p e) [
      | inl (x, y, z) ↦ (b, rw (x, y, z) IsDoubleLink-new)
      | inr old ↦ let (i, s) = k.outputs q j p old in (i, IsDoubleLink-old p i q j s)
    ];
  }

  input_mono :
      (p i : ℕ) → is_some (slot (h p).input i) ≡ true → is_some (slot (h' p).input i) ≡ true
  input_mono p i e = ground (arith, l.input p i)

  output_mono :
      (p i : ℕ) → is_some (slot (h p).output i) ≡ true → is_some (slot (h' p).output i) ≡ true
  output_mono p i e = ground (arith, l.output p i)

  fulfilled-link : (p : ℕ) → fulfilled (h p) ≡ true → fulfilled (h' p) ≡ true
  unfolding fulfilled
  fulfilled-link p e =
      let ei : all_linked (h p).read_attr (h p).input ≡ true = ground arith in
      let eo : all_linked (h p).write_attr (h p).output ≡ true = ground arith in
      let fi : all_linked (h' p).read_attr (h' p).input ≡ true =
        rw (l.shape p).read_attr
          (slot-all_linked _ _ λ i lt. input_mono p i (all_linked-slot _ _ i ei lt)) in
      let fo : all_linked (h' p).write_attr (h' p).output ≡ true =
        rw (l.shape p).write_attr
          (slot-all_linked _ _ λ i lt. output_mono p i (all_linked-slot _ _ i eo lt)) in
      ground arith

pub Steps-IsLinked : {h h' : Heap} → Steps h h' → IsLinked h → IsLinked h'
Steps-IsLinked stop k = k
Steps-IsLinked (step {a} {b} s (link p i q j d f g l)) k =
    IsLinked-link a b p i q j d f g l (Steps-IsLinked s k)

pub Steps-fulfilled :
    {h h' : Heap} → Steps h h' → (p : ℕ) → fulfilled (h p) ≡ true → fulfilled (h' p) ≡ true
Steps-fulfilled stop p e = e
Steps-fulfilled (step {a} {b} s (link x i q j d f g l)) p e =
    fulfilled-link a b x i q j d f g l p (Steps-fulfilled s p e)

pub Steps-input :
    {h h' : Heap}
    → Steps h h'
    → (p i : ℕ) → is_some (slot (h p).input i) ≡ true
    → is_some (slot (h' p).input i) ≡ true
Steps-input stop p i e = e
Steps-input (step {a} {b} s (link x k q j d f g l)) p i e =
    input_mono a b x k q j d f g l p i (Steps-input s p i e)

pub Steps-output :
    {h h' : Heap}
    → Steps h h'
    → (p i : ℕ) → is_some (slot (h p).output i) ≡ true
    → is_some (slot (h' p).output i) ≡ true
Steps-output stop p i e = e
Steps-output (step {a} {b} s (link x k q j d f g l)) p i e =
    output_mono a b x k q j d f g l p i (Steps-output s p i e)
