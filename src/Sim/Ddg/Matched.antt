-- ===== src/Sim/Ddg/Matched.antt =====
-- Actions that match: each datum that is read has one reader and one writer, and so has each that is
-- written.
use impact.Prelude.{
  ℕ, zero, suc, ◌≡◌, sym, ap, ◌∙◌, String, ℤ, some, some_injective, List, [], ◌∷◌, slot, In,
  erase_at, inl, inr,
}
use impact.Sim.Item.{Heap, has_input, has_output}
use impact.Sim.Item.Laws.{position-get_elem?, position_total}
use impact.Sim.Ddg.Steps.{IsWf, SameShape, Steps, Steps-IsWf}
use impact.Sim.Ddg.Run.{Reads, Writes, Steps-shape}
use impact.Sim.Ddg.Links.{IsLinked, Steps-IsLinked}

abbrev pub NoRepeat : List ℕ → Type 0
NoRepeat [] = Unit {0}
NoRepeat (x ∷ xs) = (¬ In x xs) × NoRepeat xs

pub In-of-erase_at : (xs : List ℕ) (k y : ℕ) → In y (erase_at xs k) → In y xs
In-of-erase_at [] k y m = absurd m
In-of-erase_at (x ∷ xs) zero y m = inr m
In-of-erase_at (x ∷ xs) (suc k) y (inl e) = inl e
In-of-erase_at (x ∷ xs) (suc k) y (inr m) = inr (In-of-erase_at xs k y m)

pub NoRepeat-erase_at : (xs : List ℕ) (k : ℕ) → NoRepeat xs → NoRepeat (erase_at xs k)
NoRepeat-erase_at [] k n = n
NoRepeat-erase_at (x ∷ xs) zero n = n.1
NoRepeat-erase_at (x ∷ xs) (suc k) n =
    ((λ m. n.0 (In-of-erase_at xs k x m)), NoRepeat-erase_at xs k n.1)

-- The reader and the writer of a datum, and that there is no other in the heap.
pub record Pairing (h : Heap) (actions : List ℕ) (attr : String) (idx : ℤ) : Type 0 where
  pub reader : ℕ
  pub read : ℕ
  pub writer : ℕ
  pub write : ℕ
  pub reader_in : In reader actions
  pub writer_in : In writer actions
  pub reads : Reads h reader read attr idx
  pub writes : Writes h writer write attr idx
  pub only_reader : (p i : ℕ) → Reads h p i attr idx → (p ≡ reader) × (i ≡ read)
  pub only_writer : (q j : ℕ) → Writes h q j attr idx → (q ≡ writer) × (j ≡ write)

pub record IsMatched (actions : List ℕ) (h : Heap) : Type 0 where
  pub no_repeat : NoRepeat actions
  pub of_read :
      (p i : ℕ) (attr : String) (idx : ℤ) → Reads h p i attr idx → Pairing h actions attr idx
  pub of_write :
      (q j : ℕ) (attr : String) (idx : ℤ) → Writes h q j attr idx → Pairing h actions attr idx

module _ (h h' : Heap) (same : (r : ℕ) → SameShape (h r) (h' r)) where
  pub Reads-back :
      (p i : ℕ) (attr : String) (idx : ℤ) → Reads h' p i attr idx → Reads h p i attr idx
  Reads-back p i attr idx r = (cc (r.0, (same p).read_attr), cc (r.1, (same p).read_idx))

  pub Writes-back :
      (p i : ℕ) (attr : String) (idx : ℤ) → Writes h' p i attr idx → Writes h p i attr idx
  Writes-back p i attr idx r = (cc (r.0, (same p).write_attr), cc (r.1, (same p).write_idx))

  abbrev pub Pairing-shape :
      (actions : List ℕ) (attr : String) (idx : ℤ)
      → Pairing h actions attr idx
      → Pairing h' actions attr idx
  Pairing-shape actions attr idx pr = record {
    reader = pr.reader;
    read = pr.read;
    writer = pr.writer;
    write = pr.write;
    reader_in = pr.reader_in;
    writer_in = pr.writer_in;
    reads =
        (cc (pr.reads.0, (same pr.reader).read_attr), cc (pr.reads.1, (same pr.reader).read_idx));
    writes = (
      cc (pr.writes.0, (same pr.writer).write_attr),
      cc (pr.writes.1, (same pr.writer).write_idx),
    );
    only_reader = λ p i r. pr.only_reader p i (Reads-back p i attr idx r);
    only_writer = λ q j w. pr.only_writer q j (Writes-back q j attr idx w);
  }

  pub IsMatched-shape : (actions : List ℕ) → IsMatched actions h → IsMatched actions h'
  IsMatched-shape actions m = record {
    no_repeat = m.no_repeat;
    of_read = λ p i attr idx r.
        Pairing-shape actions attr idx (m.of_read p i attr idx (Reads-back p i attr idx r));
    of_write = λ q j attr idx w.
        Pairing-shape actions attr idx (m.of_write q j attr idx (Writes-back q j attr idx w));
  }

-- What holds of the heap throughout a run.
pub record Good (actions : List ℕ) (h : Heap) : Type 0 where
  pub wf : IsWf h
  pub linked : IsLinked h
  pub matched : IsMatched actions h

pub Good-Steps : (actions : List ℕ) {h h' : Heap} → Steps h h' → Good actions h → Good actions h'
Good-Steps actions {h} {h'} s g = record {
  wf = Steps-IsWf s g.wf;
  linked = Steps-IsLinked s g.linked;
  matched = IsMatched-shape h h' (Steps-shape s) actions g.matched;
}

module _ (actions : List ℕ) (h : Heap) (g : Good actions h) (attr : String) (idx : ℤ)
    (pr : Pairing h actions attr idx) where
  -- Only the writer of the datum has it among its outputs, only the reader among its inputs.
  pub has_output-writer :
      (a j : ℕ) → has_output (h a) attr idx ≡ some j → (a ≡ pr.writer) × (j ≡ pr.write)
  unfolding has_output
  has_output-writer a j e =
      pr.only_writer a j (position-get_elem? attr idx (h a).write_attr (h a).write_idx j e)

  pub has_input-reader :
      (a i : ℕ) → has_input (h a) attr idx ≡ some i → (a ≡ pr.reader) × (i ≡ pr.read)
  unfolding has_input
  has_input-reader a i e =
      pr.only_reader a i (position-get_elem? attr idx (h a).read_attr (h a).read_idx i e)

  pub has_output_of_writer : has_output (h pr.writer) attr idx ≡ some pr.write
  unfolding has_output
  has_output_of_writer =
      let (j, e) =
        position_total attr idx (h pr.writer).write_attr (h pr.writer).write_idx pr.write
          pr.writes.0 pr.writes.1 in
      e ∙ ap (λ n. some n) (has_output-writer pr.writer j (unfold has_output in e)).1

  pub has_input_of_reader : has_input (h pr.reader) attr idx ≡ some pr.read
  unfolding has_input
  has_input_of_reader =
      let (i, e) =
        position_total attr idx (h pr.reader).read_attr (h pr.reader).read_idx pr.read pr.reads.0
          pr.reads.1 in
      e ∙ ap (λ n. some n) (has_input-reader pr.reader i (unfold has_input in e)).1

  -- The two ends of the link of a datum are set together.
  pub input_of_output :
      (p : ℕ)
      → slot (h pr.writer).output pr.write ≡ some p
      → slot (h pr.reader).input pr.read ≡ some pr.writer
  input_of_output p e =
      let (i, l) = g.linked.outputs pr.writer pr.write p e in
      let at : l.same.attr ≡ attr = some_injective (sym l.same.write_attr ∙ pr.writes.0) in
      let ix : l.same.idx ≡ idx = some_injective (sym l.same.write_idx ∙ pr.writes.1) in
      let (x, y) =
        pr.only_reader p i
          (l.same.read_attr ∙ ap (λ a. some a) at, l.same.read_idx ∙ ap (λ a. some a) ix) in
      rw (← x, ← y) l.input

  pub output_of_input :
      (q : ℕ)
      → slot (h pr.reader).input pr.read ≡ some q
      → slot (h pr.writer).output pr.write ≡ some pr.reader
  output_of_input q e =
      let (j, l) = g.linked.inputs pr.reader pr.read q e in
      let at : l.same.attr ≡ attr = some_injective (sym l.same.read_attr ∙ pr.reads.0) in
      let ix : l.same.idx ≡ idx = some_injective (sym l.same.read_idx ∙ pr.reads.1) in
      let (x, y) =
        pr.only_writer q j
          (l.same.write_attr ∙ ap (λ a. some a) at, l.same.write_idx ∙ ap (λ a. some a) ix) in
      rw (← x, ← y) l.output
