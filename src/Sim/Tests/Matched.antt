-- ===== src/Sim/Tests/Matched.antt =====
-- The three actions of the scheduler tests match: "x" goes from the producer to the middle action, "y"
-- from it to the consumer.
use impact.Prelude.{
  ℕ, zero, suc, ◌<◌, ◌≡◌, refl, sym, ◌∙◌, ap, some_injective, ℤ, String, pos, true, false, none,
  List, [], ◌∷◌, inl, inr, arith, ◌⊎◌, ◌-◌, str_eq,
}
use impact.Sim.Item.{ActionItem, new_item, ok}
use impact.Sim.Ddg.Run.{Reads, Writes}
use impact.Sim.Ddg.Steps.{SameShape-refl}
use impact.Sim.Ddg.Matched.{Pairing, IsMatched, IsMatched-shape}
use impact.Sim.Register.{Scheduler}
use impact.Sim.Lifecycle.{Call, ddg_schedule}
use impact.Sim.Lifecycle.Scheduled.{IsScheduled}
use impact.Sim.Lifecycle.Total.{ddg_schedule_total}
use impact.Sim.Tests.{three_actions, registration, reach_three, unscheduled_three}

abbrev item_three : ℕ → ActionItem
item_three zero = record {
  myaction = 12;
  read_attr = "y" ∷ [];
  read_idx = pos 2 ∷ [];
  input = none ∷ [];
  write_attr = [];
  write_idx = [];
  output = [];
}
item_three (suc zero) = record {
  myaction = 11;
  read_attr = "x" ∷ [];
  read_idx = pos 0 ∷ [];
  input = none ∷ [];
  write_attr = "y" ∷ [];
  write_idx = pos 2 ∷ [];
  output = none ∷ [];
}
item_three (suc (suc zero)) = record {
  myaction = 10;
  read_attr = [];
  read_idx = [];
  input = [];
  write_attr = "x" ∷ [];
  write_idx = pos 0 ∷ [];
  output = none ∷ [];
}
item_three (suc (suc (suc p))) = new_item 0

heap_three : (p : ℕ) → three_actions.heap p ≡ item_three p
unfolding registration
heap_three zero = refl
heap_three (suc zero) = refl
heap_three (suc (suc zero)) = refl
heap_three (suc (suc (suc p))) = ground arith

reads_three :
    (p i : ℕ) (attr : String) (idx : ℤ)
    → Reads item_three p i attr idx
    → ((p ≡ 0) × (i ≡ 0) × (attr ≡ "y") × (idx ≡ pos 2))
      ⊎ ((p ≡ 1) × (i ≡ 0) × (attr ≡ "x") × (idx ≡ pos 0))
reads_three zero zero attr idx r =
    inl (refl, refl, some_injective (sym r.0), some_injective (sym r.1))
reads_three zero (suc i) attr idx r = cc
reads_three (suc zero) zero attr idx r =
    inr (refl, refl, some_injective (sym r.0), some_injective (sym r.1))
reads_three (suc zero) (suc i) attr idx r = cc
reads_three (suc (suc zero)) i attr idx r = cc
reads_three (suc (suc (suc p))) i attr idx r = cc

writes_three :
    (q j : ℕ) (attr : String) (idx : ℤ)
    → Writes item_three q j attr idx
    → ((q ≡ 1) × (j ≡ 0) × (attr ≡ "y") × (idx ≡ pos 2))
      ⊎ ((q ≡ 2) × (j ≡ 0) × (attr ≡ "x") × (idx ≡ pos 0))
writes_three zero j attr idx w = cc
writes_three (suc zero) zero attr idx w =
    inl (refl, refl, some_injective (sym w.0), some_injective (sym w.1))
writes_three (suc zero) (suc j) attr idx w = cc
writes_three (suc (suc zero)) zero attr idx w =
    inr (refl, refl, some_injective (sym w.0), some_injective (sym w.1))
writes_three (suc (suc zero)) (suc j) attr idx w = cc
writes_three (suc (suc (suc q))) j attr idx w = cc

apart : ¬ (◌≡◌ {A = String} "x" "y")
apart e = let f : true ≡ false = ap (str_eq "x") e in cc

pairing_y : Pairing item_three (0 ∷ 1 ∷ 2 ∷ []) "y" (pos 2)
pairing_y = record {
  reader = 0;
  read = 0;
  writer = 1;
  write = 0;
  reader_in = inl refl;
  writer_in = inr (inl refl);
  reads = (refl, refl);
  writes = (refl, refl);
  only_reader = λ p i r. elim (reads_three p i "y" (pos 2) r) [
    | inl (x, y, z, w) ↦ (x, y)
    | inr (x, y, z, w) ↦ absurd (apart (sym z))
  ];
  only_writer = λ q j r. elim (writes_three q j "y" (pos 2) r) [
    | inl (x, y, z, w) ↦ (x, y)
    | inr (x, y, z, w) ↦ absurd (apart (sym z))
  ];
}

pairing_x : Pairing item_three (0 ∷ 1 ∷ 2 ∷ []) "x" (pos 0)
pairing_x = record {
  reader = 1;
  read = 0;
  writer = 2;
  write = 0;
  reader_in = inr (inl refl);
  writer_in = inr (inr (inl refl));
  reads = (refl, refl);
  writes = (refl, refl);
  only_reader = λ p i r. elim (reads_three p i "x" (pos 0) r) [
    | inl (x, y, z, w) ↦ absurd (apart z)
    | inr (x, y, z, w) ↦ (x, y)
  ];
  only_writer = λ q j r. elim (writes_three q j "x" (pos 0) r) [
    | inl (x, y, z, w) ↦ absurd (apart z)
    | inr (x, y, z, w) ↦ (x, y)
  ];
}

item_three-IsMatched : IsMatched (0 ∷ 1 ∷ 2 ∷ []) item_three
item_three-IsMatched = record {
  no_repeat = (
    λ m. elim m [ inl e ↦ cc | inr (inl e) ↦ cc | inr (inr no_more) ↦ no_more ],
    (λ m. elim m [ inl e ↦ cc | inr no_more ↦ no_more ], (λ m. m, tt)),
  );
  of_read = λ p i attr idx r. elim (reads_three p i attr idx r) [
    | inl (x, y, z, w) ↦ rw (z, w) pairing_y
    | inr (x, y, z, w) ↦ rw (z, w) pairing_x
  ];
  of_write = λ q j attr idx r. elim (writes_three q j attr idx r) [
    | inl (x, y, z, w) ↦ rw (z, w) pairing_y
    | inr (x, y, z, w) ↦ rw (z, w) pairing_x
  ];
}

three-IsMatched : IsMatched (0 ∷ 1 ∷ 2 ∷ []) three_actions.heap
three-IsMatched =
    IsMatched-shape item_three three_actions.heap
      (λ r. rw (heap_three r) (SameShape-refl (item_three r))) (0 ∷ 1 ∷ 2 ∷ []) item_three-IsMatched

-- The producer is 2, the middle action 1 and the consumer 0.
abbrev rank_three : ℕ → ℕ
rank_three p = 2 - p

ranked_three :
    (p i q j : ℕ) (attr : String) (idx : ℤ)
    → Reads three_actions.heap p i attr idx
    → Writes three_actions.heap q j attr idx
    → rank_three q < rank_three p
ranked_three p i q j attr idx r w = elim (reads_three p i attr idx (rw (heap_three p) at r)) [
  | inl (x, y, z, v) ↦ elim (writes_three q j attr idx (rw (heap_three q) at w)) [
    | inl (x', y', z', v') ↦ rw (x, x') (omega arith)
    | inr (x', y', z', v') ↦ absurd (apart (sym z' ∙ z))
  ]
  | inr (x, y, z, v) ↦ elim (writes_three q j attr idx (rw (heap_three q) at w)) [
    | inl (x', y', z', v') ↦ absurd (apart (sym z ∙ z'))
    | inr (x', y', z', v') ↦ rw (x, x') (omega arith)
  ]
]

actions_three : three_actions.actions ≡ 0 ∷ 1 ∷ 2 ∷ []
unfolding registration
actions_three = refl

ddg_schedule_total_example :
    (s' : Scheduler) × (log : List (Call ℕ)) × (ddg_schedule ℕ 6 three_actions ≡ ok (s', log))
    × IsScheduled three_actions s'
unfolding registration
ddg_schedule_total_example =
    ddg_schedule_total {Time = ℕ} three_actions rank_three reach_three unscheduled_three
      three-IsMatched ranked_three
