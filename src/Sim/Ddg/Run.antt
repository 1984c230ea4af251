-- ===== src/Sim/Ddg/Run.antt =====
-- A run of `buildDDG` as a sequence of links.
use impact.Prelude.{
  ℕ, suc, ◌+◌, ◌<◌, ◌≡◌, refl, String, ℤ, Option, none, some, List, [], ◌∷◌, length, slot, is_some,
  get_elem?, lt_of_get_elem?, arith, Bool-cases, inl, inr, ltb, subst,
}
use Prim.Native.Nat.add
use impact.Sim.Item.{
  Abort, Heap, n_read, n_write, has_input, has_output, set_input, set_output, Result, ok, ◌>>=◌,
}
use impact.Sim.Item.Laws.{>>=-eq-ok, ok_injective, position-get_elem?}
use impact.Sim.Ddg.{
  link_read, link_write, offer, search_writers, search_readers, fill_read, fill_write, fill_reads,
  fill_writes, link_action, linked_or,
}
use impact.Sim.Ddg.Steps.{
  IsWf, SameShape, SameShape-refl, SameShape-trans, SameData, LinkStep, link, Steps, stop, step,
  Steps-trans, Steps-IsWf, IsLinkOf-read, IsLinkOf-write,
}

-- A link that returns found both slots null and wrote both.
module _ (h h' : Heap) (p i q j : ℕ) where
  link_read-eq-ok :
      link_read p i q j h ≡ ok h'
      → (slot (h p).input i ≡ none)
        × (slot (h q).output j ≡ none)
        × (h' ≡ set_output q j p (set_input p i q h))
  unfolding link_read
  link_read-eq-ok e = (ground arith, ground arith, ground arith)

  link_write-eq-ok :
      link_write q j p i h ≡ ok h'
      → (slot (h p).input i ≡ none)
        × (slot (h q).output j ≡ none)
        × (h' ≡ set_input p i q (set_output q j p h))
  unfolding link_write
  link_write-eq-ok e = (ground arith, ground arith, ground arith)

  module _ (wf : IsWf h) (d : SameData h p i q j) where
    input_in_range : i < length (h p).input
    input_in_range = omega (arith, lt_of_get_elem? (h p).read_attr i d.read_attr, (wf p).input)

    output_in_range : j < length (h q).output
    output_in_range = omega (arith, lt_of_get_elem? (h q).write_attr j d.write_attr, (wf q).output)

    link_read-LinkStep : link_read p i q j h ≡ ok h' → LinkStep h h'
    link_read-LinkStep e =
        let (f, g, w) = link_read-eq-ok e in
        link p i q j d f g (rw w (IsLinkOf-read h p i q j input_in_range output_in_range))

    link_write-LinkStep : link_write q j p i h ≡ ok h' → LinkStep h h'
    link_write-LinkStep e =
        let (f, g, w) = link_write-eq-ok e in
        link p i q j d f g (rw w (IsLinkOf-write h p i q j input_in_range output_in_range))

-- What a run leads from a well-formed heap to.
abbrev pub Runs : Heap → Result Heap → Type 0
Runs h m = (h' : Heap) → m ≡ ok h' → Steps h h'

abbrev pub Reads : Heap → ℕ → ℕ → String → ℤ → Type 0
Reads h p i attr idx =
    (get_elem? (h p).read_attr i ≡ some attr) × (get_elem? (h p).read_idx i ≡ some idx)

abbrev pub Writes : Heap → ℕ → ℕ → String → ℤ → Type 0
Writes h p i attr idx =
    (get_elem? (h p).write_attr i ≡ some attr) × (get_elem? (h p).write_idx i ≡ some idx)

Runs-bind :
    (h : Heap) (m : Result Heap) (f : Heap → Result Heap)
    → Runs h m
    → ((h' : Heap) → Steps h h' → Runs h' (f h'))
    → Runs h (m >>= f)
Runs-bind h m f r k h'' e =
    let (h', e', e'') = >>=-eq-ok m f e in Steps-trans (r h' e') (k h' (r h' e') h'' e'')

pub Steps-shape : {h h' : Heap} → Steps h h' → (r : ℕ) → SameShape (h r) (h' r)
Steps-shape {h} stop r = SameShape-refl (h r)
Steps-shape {h} (step {a} {b} s (link p i q j d f g l)) r =
    SameShape-trans (h r) (a r) (b r) (Steps-shape s r) (l.shape r)

Runs-ok : (h : Heap) → Runs h (ok h)
Runs-ok h h' e = subst (Steps h) (ok_injective e) stop

Runs-linked_or : (h : Heap) (e : Abort) (o : Option ℕ) → Runs h (linked_or e o h)
Runs-linked_or h e none h' x = cc
Runs-linked_or h e (some p) h' x = Runs-ok h h' x

pub Reads-Steps :
    {h h' : Heap} (p i : ℕ) (attr : String) (idx : ℤ)
    → Steps h h'
    → Reads h p i attr idx
    → Reads h' p i attr idx
Reads-Steps p i attr idx s d =
    (cc (d.0, (Steps-shape s p).read_attr), cc (d.1, (Steps-shape s p).read_idx))

pub Writes-Steps :
    {h h' : Heap} (p i : ℕ) (attr : String) (idx : ℤ)
    → Steps h h'
    → Writes h p i attr idx
    → Writes h' p i attr idx
Writes-Steps p i attr idx s d =
    (cc (d.0, (Steps-shape s p).write_attr), cc (d.1, (Steps-shape s p).write_idx))

module _ (act i : ℕ) (attr : String) (idx : ℤ) where
  offer-Runs_read :
      (a : ℕ) (h : Heap) (o : Option ℕ)
      → IsWf h
      → Reads h act i attr idx
      → has_output (h a) attr idx ≡ o
      → Runs h (offer (link_read act i a) o h)
  unfolding offer has_output
  offer-Runs_read a h none wf d e h' x = Runs-ok h h' x
  offer-Runs_read a h (some j) wf d e h' x =
      let (w, v) = position-get_elem? attr idx (h a).write_attr (h a).write_idx j e in
      step stop (
        link_read-LinkStep h h' act i a j wf
          (record {
            attr = attr;
            idx = idx;
            read_attr = d.0;
            read_idx = d.1;
            write_attr = w;
            write_idx = v;
          })
          x)

  offer-Runs_write :
      (a : ℕ) (h : Heap) (o : Option ℕ)
      → IsWf h
      → Writes h act i attr idx
      → has_input (h a) attr idx ≡ o
      → Runs h (offer (link_write act i a) o h)
  unfolding offer has_input
  offer-Runs_write a h none wf d e h' x = Runs-ok h h' x
  offer-Runs_write a h (some j) wf d e h' x =
      let (w, v) = position-get_elem? attr idx (h a).read_attr (h a).read_idx j e in
      step stop (
        link_write-LinkStep h h' a j act i wf
          (record {
            attr = attr;
            idx = idx;
            read_attr = w;
            read_idx = v;
            write_attr = d.0;
            write_idx = d.1;
          })
          x)

  search_writers-Runs :
      (pool : List ℕ) (h : Heap)
      → IsWf h
      → Reads h act i attr idx
      → Runs h (search_writers act i attr idx pool h)
  unfolding search_writers
  search_writers-Runs [] h wf d = Runs-ok h
  search_writers-Runs (a ∷ pool) h wf d =
      Runs-bind h _ _ (offer-Runs_read a h (has_output (h a) attr idx) wf d refl)
        λ h1 s. search_writers-Runs pool h1 (Steps-IsWf s wf) (Reads-Steps act i attr idx s d)

  search_readers-Runs :
      (pool : List ℕ) (h : Heap)
      → IsWf h
      → Writes h act i attr idx
      → Runs h (search_readers act i attr idx pool h)
  unfolding search_readers
  search_readers-Runs [] h wf d = Runs-ok h
  search_readers-Runs (a ∷ pool) h wf d =
      Runs-bind h _ _ (offer-Runs_write a h (has_input (h a) attr idx) wf d refl)
        λ h1 s. search_readers-Runs pool h1 (Steps-IsWf s wf) (Writes-Steps act i attr idx s d)

  pub fill_read-Runs :
      (pool : List ℕ) (h : Heap)
      → IsWf h
      → Reads h act i attr idx
      → Runs h (fill_read act i attr idx pool h)
  unfolding fill_read
  fill_read-Runs pool h wf d = elim (Bool-cases (is_some (slot (h act).input i))) [
    | inl full ↦ rw full (Runs-ok h)
    | inr free ↦
        rw free (Runs-bind h _ _ (search_writers-Runs pool h wf d) (λ h1 s. Runs-linked_or h1 _ _))
  ]

  pub fill_write-Runs :
      (pool : List ℕ) (h : Heap)
      → IsWf h
      → Writes h act i attr idx
      → Runs h (fill_write act i attr idx pool h)
  unfolding fill_write
  fill_write-Runs pool h wf d = elim (Bool-cases (is_some (slot (h act).output i))) [
    | inl full ↦ rw full (Runs-ok h)
    | inr free ↦
        rw free (Runs-bind h _ _ (search_readers-Runs pool h wf d) (λ h1 s. Runs-linked_or h1 _ _))
  ]

-- The vectors from position `i` on.
abbrev pub Suffix {ℓ} : {A : Type ℓ} → ℕ → List A → List A → Type ℓ
Suffix i xs ys = (k : ℕ) → get_elem? ys (i + k) ≡ get_elem? xs k

pub Suffix-tail {ℓ} :
    {A : Type ℓ} (i : ℕ) (x : A) (xs ys : List A)
    → Suffix i (x ∷ xs) ys
    → (get_elem? ys i ≡ some x) × Suffix (suc i) xs ys
Suffix-tail i x xs ys h = (
  let e : i ≡ i + 0 = omega arith in rw e (h 0),
  λ k. let e : suc i + k ≡ i + suc k = omega arith in rw e (h (suc k)),
)

module _ (act : ℕ) (pool : List ℕ) where
  pub fill_reads-Runs :
      (i : ℕ) (attrs : List String) (ixs : List ℤ) (h : Heap)
      → IsWf h
      → Suffix i attrs (h act).read_attr
      → Suffix i ixs (h act).read_idx
      → Runs h (fill_reads act i attrs ixs pool h)
  unfolding fill_reads
  fill_reads-Runs i [] ixs h wf sa si h' e = Runs-ok h h' e
  fill_reads-Runs i (a ∷ attrs) [] h wf sa si h' e = cc
  fill_reads-Runs i (a ∷ attrs) (x ∷ ixs) h wf sa si h' e =
      let (ha, ta) = Suffix-tail i a attrs (h act).read_attr sa in
      let (hx, tx) = Suffix-tail i x ixs (h act).read_idx si in
      Runs-bind h _ _ (fill_read-Runs act i a x pool h wf (ha, hx))
        (λ h1 s.
          fill_reads-Runs (suc i) attrs ixs h1 (Steps-IsWf s wf)
            (rw (Steps-shape s act).read_attr ta) (rw (Steps-shape s act).read_idx tx))
        h' e

  pub fill_writes-Runs :
      (i : ℕ) (attrs : List String) (ixs : List ℤ) (h : Heap)
      → IsWf h
      → Suffix i attrs (h act).write_attr
      → Suffix i ixs (h act).write_idx
      → Runs h (fill_writes act i attrs ixs pool h)
  unfolding fill_writes
  fill_writes-Runs i [] ixs h wf sa si h' e = Runs-ok h h' e
  fill_writes-Runs i (a ∷ attrs) [] h wf sa si h' e = cc
  fill_writes-Runs i (a ∷ attrs) (x ∷ ixs) h wf sa si h' e =
      let (ha, ta) = Suffix-tail i a attrs (h act).write_attr sa in
      let (hx, tx) = Suffix-tail i x ixs (h act).write_idx si in
      Runs-bind h _ _ (fill_write-Runs act i a x pool h wf (ha, hx))
        (λ h1 s.
          fill_writes-Runs (suc i) attrs ixs h1 (Steps-IsWf s wf)
            (rw (Steps-shape s act).write_attr ta) (rw (Steps-shape s act).write_idx tx))
        h' e

  pub link_action-Runs : (h : Heap) → IsWf h → Runs h (link_action act pool h)
  unfolding link_action
  link_action-Runs h wf = elim (Bool-cases (ltb 0 (n_read (h act)))) [
    | inl r ↦ rw r (fill_reads-Runs 0 _ _ h wf (λ k. rw add.zero) (λ k. rw add.zero))
    | inr nr ↦ rw nr (elim (Bool-cases (ltb 0 (n_write (h act)))) [
      | inl w ↦ rw w (fill_writes-Runs 0 _ _ h wf (λ k. rw add.zero) (λ k. rw add.zero))
      | inr nw ↦ rw nw (Runs-ok h)
    ])
  ]
