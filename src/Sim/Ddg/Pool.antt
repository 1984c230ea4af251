-- ===== src/Sim/Ddg/Pool.antt =====
-- The pool of `buildDDG` on actions that match.
use impact.Prelude.{
  ℕ, suc, ◌≡◌, refl, true, some, List, slot, is_some, get_elem?, get_elem?_total, lt_of_get_elem?,
  In, In-erase_at, String, ℤ, In-drop, drop, erase_at, arith, ◌⊎◌, inl, inr, Option-cases,
}
use impact.Sim.Item.{Heap, fulfilled, fulfilled_input, all_linked}
use impact.Sim.Item.Laws.{all_linked-slot, slot-all_linked}
use impact.Sim.Ddg.Steps.{Steps}
use impact.Sim.Ddg.Run.{Steps-shape}
use impact.Sim.Ddg.Links.{Steps-input}
use impact.Sim.Ddg.Coverage.{IsCovered, IsCovered-Steps}
use impact.Sim.Ddg.Matched.{
  NoRepeat, In-of-erase_at, NoRepeat-erase_at, Pairing, Good, Good-Steps, output_of_input,
}

pub Steps-fulfilled_input :
    {h h' : Heap}
    → Steps h h'
    → (p : ℕ) → fulfilled_input (h p) ≡ true
    → fulfilled_input (h' p) ≡ true
unfolding fulfilled_input
Steps-fulfilled_input {h} {h'} s p e =
    rw (Steps-shape s p).read_attr
      (slot-all_linked _ _ λ i lt. Steps-input s p i (all_linked-slot _ _ i e lt))

module _ (actions : List ℕ) where
  -- A pool of a run: some of the actions, each once, and each action that has left is fulfilled.
  pub record OnPool (pool : List ℕ) (h : Heap) : Type 0 where
    pub good : Good actions h
    pub no_repeat : NoRepeat pool
    pub within : (p : ℕ) → In p pool → In p actions
    pub covered : IsCovered actions pool h

  -- The actions from position `k` of the pool on are the only ones whose inputs may be null.
  abbrev pub IsRead : List ℕ → ℕ → Heap → Type 0
  IsRead pool k h = (p : ℕ) → In p actions → In p (drop k pool) ⊎ (fulfilled_input (h p) ≡ true)

  pub OnPool-Steps : {h h' : Heap} (pool : List ℕ) → Steps h h' → OnPool pool h → OnPool pool h'
  OnPool-Steps pool s o = record {
    good = Good-Steps actions s o.good;
    no_repeat = o.no_repeat;
    within = o.within;
    covered = IsCovered-Steps actions pool s o.covered;
  }

  pub OnPool-erase_at :
      (pool : List ℕ) (k act : ℕ) (h : Heap)
      → get_elem? pool k ≡ some act
      → fulfilled (h act) ≡ true
      → OnPool pool h
      → OnPool (erase_at pool k) h
  OnPool-erase_at pool k act h at full o = record {
    good = o.good;
    no_repeat = NoRepeat-erase_at pool k o.no_repeat;
    within = λ p m. o.within p (In-of-erase_at pool k p m);
    covered = λ p m. elim (o.covered p m) [
      | inr done ↦ inr done
      | inl waits ↦ elim (In-erase_at pool k act p at waits) [
        | inl here ↦ inr (rw here full)
        | inr rest ↦ inl rest
      ]
    ];
  }

  pub IsRead-suc :
      (pool : List ℕ) (k act : ℕ) (h : Heap)
      → get_elem? pool k ≡ some act
      → fulfilled_input (h act) ≡ true
      → IsRead pool k h
      → IsRead pool (suc k) h
  IsRead-suc pool k act h at full r p m = elim (r p m) [
    | inr done ↦ inr done
    | inl waits ↦ elim (In-drop pool k act p at waits) [
      | inl here ↦ inr (rw here full)
      | inr rest ↦ inl rest
    ]
  ]

  -- Where every input is set, every output is: each is the other end of a link.
  paired_output :
      (h : Heap) (w j : ℕ) (attr : String) (idx : ℤ) (pr : Pairing h actions attr idx)
      → Good actions h
      → ((p : ℕ) → In p actions → fulfilled_input (h p) ≡ true)
      → w ≡ pr.writer
      → j ≡ pr.write
      → is_some (slot (h w).output j) ≡ true
  unfolding fulfilled_input
  paired_output h w j attr idx pr g full x y =
      let set : is_some (slot (h pr.reader).input pr.read) ≡ true =
        all_linked-slot _ _ pr.read (full pr.reader pr.reader_in)
          (lt_of_get_elem? (h pr.reader).read_attr pr.read pr.reads.0) in
      elim (Option-cases (slot (h pr.reader).input pr.read)) [
        | inl free ↦ cc (free, set)
        | inr (q, there) ↦ rw (x, y) (rw (output_of_input actions h g attr idx pr q there) refl)
      ]

  pub fulfilled_of_inputs :
      (h : Heap)
      → Good actions h
      → ((p : ℕ) → In p actions → fulfilled_input (h p) ≡ true)
      → (p : ℕ) → In p actions
      → fulfilled (h p) ≡ true
  unfolding fulfilled fulfilled_input
  fulfilled_of_inputs h g full p m =
      let outputs : all_linked (h p).write_attr (h p).output ≡ true = slot-all_linked _ _ λ j lt.
        let (a, ea) = get_elem?_total (h p).write_attr j lt in
        let (x, ex) = get_elem?_total (h p).write_idx j (omega (arith, (g.wf p).write_idx)) in
        let pr = g.matched.of_write p j a x (ea, ex) in
        let (same_w, same_j) = pr.only_writer p j (ea, ex) in
        paired_output h p j a x pr g full same_w same_j in
      rw (full p m, outputs) refl
