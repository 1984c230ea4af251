-- ===== src/Sim/Ddg/Coverage.antt =====
-- The loop of `buildDDG`: what holds of the items when it returns.
use Prim.Native.Nat.{ℕ}
use impact.Prelude.{
  String, zero, suc, ◌≡◌, refl, sym, ap, ◌∙◌, Bool, true, false, Option, none, some, List, [], ◌∷◌,
  length, get_elem?, In, In-erase_at, arith, ◌⊎◌, inl, inr, erase_at, Option-cases,
}
use impact.Sim.Item.{ActionItem, Heap, fulfilled, all_linked, ok}
use impact.Sim.Item.Laws.{>>=-eq-ok, ok_injective, err≢ok}
use impact.Sim.Ddg.{
  ddg_round, advance, link_action, Exit, ddg_loop, build_ddg, sanity_check, sane_item, all_some,
}
use impact.Sim.Ddg.Steps.{IsWfItem, IsWf, SameShape, Steps, stop, Steps-trans, Steps-IsWf}
use impact.Sim.Ddg.Run.{Steps-shape, link_action-Runs}
use impact.Sim.Ddg.Links.{IsLinked, Steps-IsLinked, Steps-fulfilled}

-- Every action is still in the pool or is fulfilled.
abbrev pub IsCovered : List ℕ → List ℕ → Heap → Type 0
IsCovered actions pool h = (p : ℕ) → In p actions → In p pool ⊎ (fulfilled (h p) ≡ true)

abbrev Finished : List ℕ → Heap → Heap × Exit → Type 0
Finished actions h done = Steps h done.0 × ((p : ℕ) → In p actions → fulfilled (done.0 p) ≡ true)

module _ (actions : List ℕ) where
  round_links :
      (pool : List ℕ) (k : ℕ) (h : Heap) (done : Heap × Option (List ℕ × ℕ))
      → IsWf h
      → ddg_round pool k h ≡ ok done
      → (act : ℕ) × (get_elem? pool k ≡ some act)
        × Steps h done.0
        × (done.1 ≡ advance pool k (fulfilled (done.0 act)))
  unfolding ddg_round
  round_links pool k h done wf e = elim (Option-cases (get_elem? pool k)) [
    | inl absent ↦ absurd (err≢ok (rw (absent, ddg_round) at e))
    | inr (act, at_k) ↦
        let (h', x, y) = >>=-eq-ok (link_action act pool h) _ (rw (at_k, ddg_round) at e) in
        let z = ok_injective y in
        (act, at_k, rw (← z) (link_action-Runs act pool h wf h' x), rw (← z) refl)
  ]

  pub IsCovered-advance :
      (pool : List ℕ) (k act : ℕ) (h : Heap) (b : Bool) (pool' : List ℕ) (k' : ℕ)
      → get_elem? pool k ≡ some act
      → fulfilled (h act) ≡ b
      → advance pool k b ≡ some (pool', k')
      → IsCovered actions pool h
      → IsCovered actions pool' h
  unfolding advance
  IsCovered-advance pool k act h false pool' k' at_k f e cov p m =
      let same : pool ≡ pool' = ground arith in rw (← same) (cov p m)
  IsCovered-advance pool k act h true pool' k' at_k f e cov p m =
      let same : erase_at pool k ≡ pool' = ground arith in
      elim (cov p m) [
        | inr done ↦ inr done
        | inl waits ↦ elim (In-erase_at pool k act p at_k waits) [
          | inl here ↦ inr (rw here f)
          | inr rest ↦ inl (rw (← same) rest)
        ]
      ]

  covered_return :
      (pool : List ℕ) (k act : ℕ) (h : Heap) (b : Bool)
      → get_elem? pool k ≡ some act
      → fulfilled (h act) ≡ b
      → advance pool k b ≡ none
      → IsCovered actions pool h
      → (p : ℕ) → In p actions
      → fulfilled (h p) ≡ true
  unfolding advance
  covered_return pool k act h false at_k f e cov p m = cc
  covered_return [] k act h true at_k f e cov p m = cc
  covered_return (x ∷ []) zero act h true at_k f e cov p m = elim (cov p m) [
    | inr done ↦ done
    | inl (inl here) ↦ let same : p ≡ act = cc in rw same f
    | inl (inr no_more) ↦ absurd no_more
  ]
  covered_return (x ∷ []) (suc k) act h true at_k f e cov p m = cc
  covered_return (x ∷ y ∷ pool) k act h true at_k f e cov p m = ground arith

  pub IsCovered-Steps :
      {h h' : Heap} (pool : List ℕ)
      → Steps h h'
      → IsCovered actions pool h
      → IsCovered actions pool h'
  IsCovered-Steps pool s cov p m = elim (cov p m) [
    | inl waits ↦ inl waits
    | inr done ↦ inr (Steps-fulfilled s p done)
  ]

  ddg_loop-Finished :
      (fuel : ℕ) (pool : List ℕ) (k : ℕ) (h : Heap) (done : Heap × Exit)
      → IsWf h
      → IsCovered actions pool h
      → ddg_loop fuel pool k h ≡ ok done
      → Finished actions h done
  unfolding ddg_loop
  ddg_loop-Finished fuel [] k h done wf cov e =
      rw (← ok_injective e)
        (stop, λ p m. elim (cov p m) [ inl waits ↦ absurd waits | inr full ↦ full ])
  ddg_loop-Finished zero (p ∷ ps) k h done wf cov e = cc
  ddg_loop-Finished (suc fuel) (p ∷ ps) k h done wf cov e =
      let ((h', next), x, y) = >>=-eq-ok (ddg_round (p ∷ ps) k h) _ e in
      let (act, at_k, s, adv) = round_links (p ∷ ps) k h (h', next) wf x in
      elim (Option-cases next) [
        | inl last ↦
            let stop_here = ok_injective (rw last at y) in
            rw (← stop_here) (
              s,
              covered_return (p ∷ ps) k act h' (fulfilled (h' act)) at_k refl (sym adv ∙ last)
                  (IsCovered-Steps (p ∷ ps) s cov),
            )
        | inr ((pool', k'), more) ↦
            let (t, full) =
              ddg_loop-Finished fuel pool' k' h' done (Steps-IsWf s wf)
                (IsCovered-advance (p ∷ ps) k act h' (fulfilled (h' act)) pool' k' at_k refl
                  (sym adv ∙ more) (IsCovered-Steps (p ∷ ps) s cov))
                (rw more at y) in
            (Steps-trans s t, full)
      ]

-- After a run that returns every item is fulfilled and every pointer is half of a double link.
module _ (fuel : ℕ) (actions roots : List ℕ) (h h' : Heap) (roots' : List ℕ) (wf : IsWf h) where
  build_ddg-Finished :
      build_ddg fuel actions roots h ≡ ok (h', roots')
      → Steps h h' × ((p : ℕ) → In p actions → fulfilled (h' p) ≡ true)
  unfolding build_ddg
  build_ddg-Finished e =
      let (done, x, y) = >>=-eq-ok (ddg_loop fuel actions 0 h) _ e in
      let (s, full) = ddg_loop-Finished actions fuel actions 0 h done wf (λ p m. inl m) x in
      let same : done.0 ≡ h' = ap (λ (t : Heap × List ℕ). t.0) (ok_injective y) in
      (rw (← same) s, rw (← same) full)

-- A run of `buildDDG` from well-formed items with no pointer set, where it returns, leaves every
-- pointer half of a double link of one attribute and index, every item of `actions` fulfilled, and
-- the registered data of every item as it was.
pub build_ddg-IsLinked :
    (fuel : ℕ) (actions roots : List ℕ) (h h' : Heap) (roots' : List ℕ)
    → IsWf h
    → IsLinked h
    → build_ddg fuel actions roots h ≡ ok (h', roots')
    → IsLinked h'
      × ((p : ℕ) → In p actions → fulfilled (h' p) ≡ true)
      × ((p : ℕ) → SameShape (h p) (h' p))
build_ddg-IsLinked fuel actions roots h h' roots' wf k e =
    let (s, full) = build_ddg-Finished fuel actions roots h h' roots' wf e in
    (Steps-IsLinked s k, full, Steps-shape s)

all_some_of_all_linked :
    (attrs : List String) (slots : List (Option ℕ))
    → length slots ≡ length attrs
    → all_linked attrs slots ≡ true
    → all_some slots ≡ true
unfolding all_linked
all_some_of_all_linked attrs [] n e = refl
all_some_of_all_linked [] (s ∷ slots) n e = absurd (omega arith)
all_some_of_all_linked (a ∷ attrs) (none ∷ slots) n e = cc
all_some_of_all_linked (a ∷ attrs) (some p ∷ slots) n e =
    all_some_of_all_linked attrs slots (omega arith) e

sane_item_of_fulfilled : (it : ActionItem) → IsWfItem it → fulfilled it ≡ true → sane_item it ≡ true
unfolding fulfilled
sane_item_of_fulfilled it wf e =
    let ei : all_linked it.read_attr it.input ≡ true = ground arith in
    let eo : all_linked it.write_attr it.output ≡ true = ground arith in
    ground (
      arith,
      all_some_of_all_linked it.read_attr it.input wf.input ei,
      all_some_of_all_linked it.write_attr it.output wf.output eo,
    )

sanity_check_of_sane :
    (h : Heap) (ps : List ℕ)
    → ((p : ℕ) → In p ps → sane_item (h p) ≡ true)
    → sanity_check h ps ≡ ok tt
unfolding sanity_check
sanity_check_of_sane h [] all = refl
sanity_check_of_sane h (p ∷ ps) all =
    rw (all p (inl refl)) (sanity_check_of_sane h ps (λ q m. all q (inr m)))

-- `sanityCheck` never aborts after a `buildDDG` that returns from well-formed items.
pub sanity_check-build_ddg :
    (fuel : ℕ) (actions roots : List ℕ) (h h' : Heap) (roots' : List ℕ)
    → IsWf h
    → build_ddg fuel actions roots h ≡ ok (h', roots')
    → sanity_check h' actions ≡ ok tt
sanity_check-build_ddg fuel actions roots h h' roots' wf e =
    let (s, full) = build_ddg-Finished fuel actions roots h h' roots' wf e in
    sanity_check_of_sane h' actions
      (λ p m. sane_item_of_fulfilled (h' p) (Steps-IsWf s wf p) (full p m))
