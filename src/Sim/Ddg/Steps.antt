-- ===== src/Sim/Ddg/Steps.antt =====
-- The links of `buildDDG` as a step relation on the heap: a null input slot is paired with a null output
-- slot of the same data.
use impact.Prelude.{
  ℕ, zero, suc, ◌<◌, ◌≡◌, refl, ◌∙◌, String, ℤ, Option, none, some, List, [], ◌∷◌, length, slot,
  set, get_elem?, length-set, arith, ◌==◌, if◌then◌else◌, ◌&&◌,
}
use impact.Sim.Item.{ActionItem, Heap, set_input, set_output}

-- Each attribute has an index and a slot.
pub record IsWfItem (it : ActionItem) : Type 0 where
  pub read_idx : length it.read_idx ≡ length it.read_attr
  pub input : length it.input ≡ length it.read_attr
  pub write_idx : length it.write_idx ≡ length it.write_attr
  pub output : length it.output ≡ length it.write_attr

abbrev pub IsWf : Heap → Type 0
IsWf h = (p : ℕ) → IsWfItem (h p)

-- What registration has written is the same in both items, and no vector has another length.
pub record SameShape (a b : ActionItem) : Type 0 where
  pub myaction : b.myaction ≡ a.myaction
  pub read_attr : b.read_attr ≡ a.read_attr
  pub read_idx : b.read_idx ≡ a.read_idx
  pub write_attr : b.write_attr ≡ a.write_attr
  pub write_idx : b.write_idx ≡ a.write_idx
  pub input : length b.input ≡ length a.input
  pub output : length b.output ≡ length a.output

pub SameShape-refl : (a : ActionItem) → SameShape a a
SameShape-refl a = record {
  myaction = refl;
  read_attr = refl;
  read_idx = refl;
  write_attr = refl;
  write_idx = refl;
  input = refl;
  output = refl;
}

pub SameShape-trans : (a b c : ActionItem) → SameShape a b → SameShape b c → SameShape a c
SameShape-trans a b c x y = record {
  myaction = y.myaction ∙ x.myaction;
  read_attr = y.read_attr ∙ x.read_attr;
  read_idx = y.read_idx ∙ x.read_idx;
  write_attr = y.write_attr ∙ x.write_attr;
  write_idx = y.write_idx ∙ x.write_idx;
  input = y.input ∙ x.input;
  output = y.output ∙ x.output;
}

-- The read `i` of `p` and the write `j` of `q` name the same attribute and index.
pub record SameData (h : Heap) (p i q j : ℕ) : Type 0 where
  pub attr : String
  pub idx : ℤ
  pub read_attr : get_elem? (h p).read_attr i ≡ some attr
  pub read_idx : get_elem? (h p).read_idx i ≡ some idx
  pub write_attr : get_elem? (h q).write_attr j ≡ some attr
  pub write_idx : get_elem? (h q).write_idx j ≡ some idx

-- `h'` is `h` with the input slot `i` of `p` set to `q` and the output slot `j` of `q` set to `p`.
pub record IsLinkOf (h h' : Heap) (p i q j : ℕ) : Type 0 where
  pub shape : (r : ℕ) → SameShape (h r) (h' r)
  pub input :
      (r k : ℕ) → slot (h' r).input k ≡ (if p == r && i == k then some q else slot (h r).input k)
  pub output :
      (r k : ℕ) → slot (h' r).output k ≡ (if q == r && j == k then some p else slot (h r).output k)

pub data LinkStep (h h' : Heap) : Type 0 where
  link :
      (p i q j : ℕ)
      → SameData h p i q j
      → slot (h p).input i ≡ none
      → slot (h q).output j ≡ none
      → IsLinkOf h h' p i q j
      → LinkStep h h'

pub data Steps (h : Heap) : Heap → Type 0 where
  stop : Steps h h
  step : {a b : Heap} → Steps h a → LinkStep a b → Steps h b

pub Steps-trans : {a b c : Heap} → Steps a b → Steps b c → Steps a c
Steps-trans s stop = s
Steps-trans s (step t l) = step (Steps-trans s t) l

IsWf-LinkStep : (h h' : Heap) → IsWf h → LinkStep h h' → IsWf h'
IsWf-LinkStep h h' wf (link p i q j d f g l) = λ r. record {
  read_idx = cc ((l.shape r).read_idx, (l.shape r).read_attr, (wf r).read_idx);
  input = cc ((l.shape r).input, (l.shape r).read_attr, (wf r).input);
  write_idx = cc ((l.shape r).write_idx, (l.shape r).write_attr, (wf r).write_idx);
  output = cc ((l.shape r).output, (l.shape r).write_attr, (wf r).output);
}

pub Steps-IsWf : {h h' : Heap} → Steps h h' → IsWf h → IsWf h'
Steps-IsWf stop wf = wf
Steps-IsWf (step s l) wf = IsWf-LinkStep _ _ (Steps-IsWf s wf) l

-- A write to one slot of one item, in the form of a test on the address and the position.
slot-set :
    (xs : List (Option ℕ)) (i k : ℕ) (v : Option ℕ)
    → i < length xs
    → slot (set xs i v) k ≡ (if i == k then v else slot xs k)
slot-set [] i k v h = elim h [ ]
slot-set (x ∷ xs) zero zero v h = refl
slot-set (x ∷ xs) zero (suc k) v h = ground arith
slot-set (x ∷ xs) (suc i) zero v h = ground arith
slot-set (x ∷ xs) (suc i) (suc k) v h = ground (arith, slot-set xs i k v)

module _ (h : Heap) (p i q j : ℕ) (bi : i < length (h p).input) (bj : j < length (h q).output) where
  pub IsLinkOf-read : IsLinkOf h (set_output q j p (set_input p i q h)) p i q j
  IsLinkOf-read = record {
    shape = λ r. record {
      myaction = ground arith;
      read_attr = ground arith;
      read_idx = ground arith;
      write_attr = ground arith;
      write_idx = ground arith;
      input = ground (arith, length-set (h p).input i (some q));
      output = ground (arith, length-set (h q).output j (some p));
    };
    input = λ r k. ground (arith, slot-set (h p).input i k (some q));
    output = λ r k. ground (arith, slot-set (h q).output j k (some p));
  }

  pub IsLinkOf-write : IsLinkOf h (set_input p i q (set_output q j p h)) p i q j
  IsLinkOf-write = record {
    shape = λ r. record {
      myaction = ground arith;
      read_attr = ground arith;
      read_idx = ground arith;
      write_attr = ground arith;
      write_idx = ground arith;
      input = ground (arith, length-set (h p).input i (some q));
      output = ground (arith, length-set (h q).output j (some p));
    };
    input = λ r k. ground (arith, slot-set (h p).input i k (some q));
    output = λ r k. ground (arith, slot-set (h q).output j k (some p));
  }
