-- ===== src/Sim/Ddg/Search.antt =====
-- The searches of the pool on actions that match.
use impact.Prelude.{
  ℕ, ◌<◌, ◌≡◌, refl, sym, String, ℤ, true, none, List, [], ◌∷◌, length, slot, is_some,
  lt_of_get_elem?, In, arith, Option-cases, inl, inr,
}
use impact.Sim.Item.{Heap, has_input, has_output, set_input, set_output, ok}
use impact.Sim.Ddg.{link_read, link_write, offer, search_writers, search_readers}
use impact.Sim.Ddg.Steps.{SameData, link, step, IsLinkOf-read, IsLinkOf-write, Steps, stop}
use impact.Sim.Ddg.Run.{Steps-shape}
use impact.Sim.Ddg.Matched.{
  NoRepeat, Pairing, Pairing-shape, Good, Good-Steps, has_output-writer, has_input-reader,
  has_output_of_writer, has_input_of_reader, input_of_output, output_of_input,
}

-- A search of a pool without the partner changes nothing.
module _ (actions : List ℕ) (attr : String) (idx : ℤ) where
  no_writer :
      (act i : ℕ) (pool : List ℕ) (h : Heap) (pr : Pairing h actions attr idx)
      → Good actions h
      → ¬ In pr.writer pool
      → search_writers act i attr idx pool h ≡ ok h
  unfolding search_writers offer
  no_writer act i [] h pr g away = refl
  no_writer act i (a ∷ pool) h pr g away = elim (Option-cases (has_output (h a) attr idx)) [
    | inl e ↦ rw e (no_writer act i pool h pr g (λ m. away (inr m)))
    | inr (j, e) ↦ absurd (away (inl (sym (has_output-writer actions h g attr idx pr a j e).0)))
  ]

  no_reader :
      (act i : ℕ) (pool : List ℕ) (h : Heap) (pr : Pairing h actions attr idx)
      → Good actions h
      → ¬ In pr.reader pool
      → search_readers act i attr idx pool h ≡ ok h
  unfolding search_readers offer
  no_reader act i [] h pr g away = refl
  no_reader act i (a ∷ pool) h pr g away = elim (Option-cases (has_input (h a) attr idx)) [
    | inl e ↦ rw e (no_reader act i pool h pr g (λ m. away (inr m)))
    | inr (j, e) ↦ absurd (away (inl (sym (has_input-reader actions h g attr idx pr a j e).0)))
  ]

-- The link of a datum whose ends are null.
module _ (actions : List ℕ) (h : Heap) (g : Good actions h) (attr : String) (idx : ℤ)
    (pr : Pairing h actions attr idx) where
  read_in_range : pr.read < length (h pr.reader).input
  read_in_range =
      omega
        (arith, lt_of_get_elem? (h pr.reader).read_attr pr.read pr.reads.0, (g.wf pr.reader).input)

  write_in_range : pr.write < length (h pr.writer).output
  write_in_range = omega (
    arith,
    lt_of_get_elem? (h pr.writer).write_attr pr.write pr.writes.0,
    (g.wf pr.writer).output,
  )

  pub null_output :
      slot (h pr.reader).input pr.read ≡ none → slot (h pr.writer).output pr.write ≡ none
  null_output e = elim (Option-cases (slot (h pr.writer).output pr.write)) [
    | inl free ↦ free
    | inr (p, full) ↦ cc (input_of_output actions h g attr idx pr p full, e)
  ]

  pub null_input :
      slot (h pr.writer).output pr.write ≡ none → slot (h pr.reader).input pr.read ≡ none
  null_input e = elim (Option-cases (slot (h pr.reader).input pr.read)) [
    | inl free ↦ free
    | inr (p, full) ↦ cc (output_of_input actions h g attr idx pr p full, e)
  ]

  abbrev pub read_linked : Heap
  read_linked = set_output pr.writer pr.write pr.reader (set_input pr.reader pr.read pr.writer h)

  abbrev pub write_linked : Heap
  write_linked = set_input pr.reader pr.read pr.writer (set_output pr.writer pr.write pr.reader h)

  link_read_total :
      slot (h pr.reader).input pr.read ≡ none
      → link_read pr.reader pr.read pr.writer pr.write h ≡ ok read_linked
  unfolding link_read
  link_read_total e = ground (arith, null_output e)

  link_write_total :
      slot (h pr.writer).output pr.write ≡ none
      → link_write pr.writer pr.write pr.reader pr.read h ≡ ok write_linked
  unfolding link_write
  link_write_total e = ground (arith, null_input e)

  pub read_linked-input : is_some (slot (read_linked pr.reader).input pr.read) ≡ true
  read_linked-input =
      let l = IsLinkOf-read h pr.reader pr.read pr.writer pr.write read_in_range write_in_range in
      ground (arith, l.input pr.reader pr.read)

  pub write_linked-output : is_some (slot (write_linked pr.writer).output pr.write) ≡ true
  write_linked-output =
      let l = IsLinkOf-write h pr.reader pr.read pr.writer pr.write read_in_range write_in_range in
      ground (arith, l.output pr.writer pr.write)

  same_data : SameData h pr.reader pr.read pr.writer pr.write
  same_data = record {
    attr = attr;
    idx = idx;
    read_attr = pr.reads.0;
    read_idx = pr.reads.1;
    write_attr = pr.writes.0;
    write_idx = pr.writes.1;
  }

  read_linked-Steps : slot (h pr.reader).input pr.read ≡ none → Steps h read_linked
  read_linked-Steps e = step stop (
      link pr.reader pr.read pr.writer pr.write same_data e (null_output e)
        (IsLinkOf-read h pr.reader pr.read pr.writer pr.write read_in_range write_in_range))

  write_linked-Steps : slot (h pr.writer).output pr.write ≡ none → Steps h write_linked
  write_linked-Steps e = step stop (
      link pr.reader pr.read pr.writer pr.write same_data (null_input e) e
        (IsLinkOf-write h pr.reader pr.read pr.writer pr.write read_in_range write_in_range))

  -- The search finds the partner in the pool, and links it.
  pub search_writers_total :
      (pool : List ℕ)
      → NoRepeat pool
      → In pr.writer pool
      → slot (h pr.reader).input pr.read ≡ none
      → search_writers pr.reader pr.read attr idx pool h ≡ ok read_linked
  unfolding search_writers offer
  search_writers_total [] n m e = absurd m
  search_writers_total (a ∷ pool) n m e = elim (Option-cases (has_output (h a) attr idx)) [
    | inl miss ↦ elim m [
      | inl here ↦ cc (has_output_of_writer actions h g attr idx pr, here, miss)
      | inr later ↦ rw miss (search_writers_total pool n.1 later e)
    ]
    | inr (j, hit) ↦
        let (x, y) = has_output-writer actions h g attr idx pr a j hit in
        let linked : link_read pr.reader pr.read a j h ≡ ok read_linked =
          rw (x, y) (link_read_total e) in
        let s : Steps h read_linked = read_linked-Steps e in
        rw (hit, linked)
          (no_writer actions attr idx pr.reader pr.read pool read_linked
            (Pairing-shape h read_linked (Steps-shape s) actions attr idx pr)
            (Good-Steps actions s g) (λ again. n.0 (rw x again)))
  ]

  pub search_readers_total :
      (pool : List ℕ)
      → NoRepeat pool
      → In pr.reader pool
      → slot (h pr.writer).output pr.write ≡ none
      → search_readers pr.writer pr.write attr idx pool h ≡ ok write_linked
  unfolding search_readers offer
  search_readers_total [] n m e = absurd m
  search_readers_total (a ∷ pool) n m e = elim (Option-cases (has_input (h a) attr idx)) [
    | inl miss ↦ elim m [
      | inl here ↦ cc (has_input_of_reader actions h g attr idx pr, here, miss)
      | inr later ↦ rw miss (search_readers_total pool n.1 later e)
    ]
    | inr (j, hit) ↦
        let (x, y) = has_input-reader actions h g attr idx pr a j hit in
        let linked : link_write pr.writer pr.write a j h ≡ ok write_linked =
          rw (x, y) (link_write_total e) in
        let s : Steps h write_linked = write_linked-Steps e in
        rw (hit, linked)
          (no_reader actions attr idx pr.writer pr.write pool write_linked
            (Pairing-shape h write_linked (Steps-shape s) actions attr idx pr)
            (Good-Steps actions s g) (λ again. n.0 (rw x again)))
  ]
