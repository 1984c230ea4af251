-- ===== src/Sim/Ddg/Hang.antt =====
-- Where the loop of `buildDDG` does not end.
use impact.Prelude.{
  ℕ, zero, suc, ◌+◌, ◌<◌, ◌≡◌, refl, String, ℤ, true, false, List, [], ◌∷◌, length, slot, is_some,
  arith, ltb,
}
use impact.Sim.Item.{Heap, n_read, fulfilled, out_of_fuel, ok, err}
use impact.Sim.Ddg.{fill_read, fill_reads, link_action, advance, ddg_round, ddg_loop}

fill_reads_filled :
    (act i : ℕ) (attrs : List String) (ixs : List ℤ) (pool : List ℕ) (h : Heap)
    → length ixs ≡ length attrs
    → ((k : ℕ) → k < length attrs → is_some (slot (h act).input (i + k)) ≡ true)
    → fill_reads act i attrs ixs pool h ≡ ok h
unfolding fill_reads fill_read
fill_reads_filled act i [] ixs pool h n f = refl
fill_reads_filled act i (a ∷ attrs) [] pool h n f = absurd (omega arith)
fill_reads_filled act i (a ∷ attrs) (x ∷ ixs) pool h n f =
    let here : is_some (slot (h act).input i) ≡ true =
      let e : i + 0 ≡ i = omega arith in rw e at (f 0 (omega arith)) in
    rw here (
      fill_reads_filled act (suc i) attrs ixs pool h (omega arith)
        (λ k lt. let e : i + suc k ≡ suc i + k = omega arith in rw e at (f (suc k) (omega arith))))

-- Where the last item of the pool has all its reads linked and a write without a reader, the loop
-- visits it again and again, whatever the fuel, and no abort reports the missing reader.
pub ddg_loop-hangs :
    (fuel act : ℕ) (h : Heap)
    → 0 < n_read (h act)
    → length (h act).read_idx ≡ n_read (h act)
    → ((k : ℕ) → k < n_read (h act) → is_some (slot (h act).input k) ≡ true)
    → fulfilled (h act) ≡ false
    → ddg_loop fuel (act ∷ []) 0 h ≡ err out_of_fuel
unfolding ddg_loop ddg_round link_action advance
ddg_loop-hangs zero act h reads n f un = refl
ddg_loop-hangs (suc fuel) act h reads n f un =
    let same : fill_reads act 0 (h act).read_attr (h act).read_idx (act ∷ []) h ≡ ok h =
      fill_reads_filled act 0 (h act).read_attr (h act).read_idx (act ∷ []) h n
        (λ k lt. let e : k ≡ 0 + k = omega arith in rw e at (f k lt)) in
    let test : ltb 0 (n_read (h act)) ≡ true = ground arith in
    rw (test, same) (rw un (ddg_loop-hangs fuel act h reads n f un))
