-- ===== src/Com/Window/Deleted.antt =====
-- `delete_dataitem`: the places that are left, and the next id to be given.
use impact.Prelude.{
  ◌∙◌, get_elem?, length, true, Option, ◌⊎◌, ◌+◌, ◌<◌, ℕ, ◌≤◌, ◌≢◌, inl, inr, refl, String, str_eq,
  some, some_injective, ◌≡◌, sym, [], ◌∷◌, All, Bool-cases, false, subst, arith, if◌then◌else◌, ltb,
  ◌==◌,
}
use impact.Com.Window.{
  WindowItem, AttrMap, Window, returned, com_num_keywords, com_data, erase_name, find_name,
  delete_window_dataitem, drop_last, drop_inside, delete_entry,
}
use impact.Com.ItemSet.{AttrSet, Entry, width, delete_dataitem}
use impact.Com.ItemSet.Kept.{delete_dataitem-keeps}
use impact.Com.Window.Names.{All-at, All-erase_name}
use impact.Com.Window.Kept.{IsApart-erase_name, kept_items, stored_user, placed_user}
use impact.Com.Window.Registered.{
  ends, IsPlaced, IsApart, IsApart-comm, IsSeparate, IsRegistered, IsStored, IsSeparate-erase_name,
}

-- The items other than the last one end where it starts.
placed_below :
    (last : ℕ) (a b : WindowItem)
    → last ≡ ends a
    → com_num_keywords ≤ a.id
    → com_num_keywords ≤ last
    → IsPlaced last b
    → IsApart b a
    → IsPlaced a.id b
placed_below last a b e u l (inl p) q = inl p
placed_below last a b e u l (inr (i, z, r)) (inl q) = inr (i, z, q)
placed_below last a b e u l (inr (i, z, r)) (inr q) = absurd (ground arith)

module _ (last : ℕ) (a : WindowItem) (e : last ≡ ends a) (u : com_num_keywords ≤ a.id) where
  all_below :
      (x : String) (b : WindowItem)
      → a ≡ b
      → (m : AttrMap) → com_num_keywords ≤ last
      → All (λ y. (y.0 ≢ x) × IsApart y.1 b) m
      → All (λ y. IsPlaced last y.1) m
      → All (λ y. IsPlaced a.id y.1) m
  all_below x b s [] l t p = tt
  all_below x b s ((n, c) ∷ m) l ((q, r), t) (p, ps) =
      (placed_below last a c e u l p (subst (λ d. IsApart c d) (sym s) r), all_below x b s m l t ps)

  placed-erase_name :
      (k : String) (m : AttrMap)
      → find_name k m ≡ some a
      → com_num_keywords ≤ last
      → IsSeparate m
      → All (λ y. IsPlaced last y.1) m
      → All (λ y. IsPlaced a.id y.1) (erase_name k m)
  unfolding find_name erase_name
  placed-erase_name k [] h l s p = tt
  placed-erase_name k ((x, b) ∷ m) h l (t, s) (p, ps) = elim (Bool-cases (str_eq x k)) [
    | inl same ↦ rw same (all_below x b (sym (some_injective (rw same at h))) m l t ps)
    | inr other ↦
        let h' : find_name k m ≡ some a = rw other at h in
        let r : IsApart a b = (All-at (λ y. (y.0 ≢ x) × IsApart y.1 b) k a m h' t).1 in
        rw other
          (placed_below last a b e u l p (IsApart-comm a b r), placed-erase_name k m h' l s ps)
  ]

set_size_last :
    (s : AttrSet) (a : WindowItem) (last n : ℕ)
    → length s ≡ (if ends a == n then a.id else n)
    → n ≡ last
    → (last == ends a) ≡ true
    → length s ≡ a.id
set_size_last s a last n e h t = let u : (ends a == n) ≡ true = ground arith in e ∙ rw u refl

set_size_inside :
    (s : AttrSet) (a : WindowItem) (last n : ℕ)
    → length s ≡ (if ends a == n then a.id else n)
    → n ≡ last
    → (last == ends a) ≡ false
    → length s ≡ last
set_size_inside s a last n e h t = let u : (ends a == n) ≡ false = ground arith in e ∙ rw u h

module _ (aname : String) (a : WindowItem) (w : Window) (u : com_num_keywords ≤ a.id) where
  delete_user_entry :
      (s : AttrSet)
      → delete_dataitem a.id w.attr_set ≡ some s
      → delete_entry aname a w
        ≡ returned (
            if w.last_id == ends a
            then drop_last aname a (record w { attr_set = s })
            else drop_inside aname (record w { attr_set = s }))
  delete_user_entry s e =
      let k : ltb a.id com_num_keywords ≡ false = ground arith in
      let d : (a.id == com_data) ≡ false = ground arith in rw (k, d, e) refl

  pub delete_window_dataitem_at :
      IsRegistered w
      → find_name aname w.attr_map ≡ some a
      → (w' : Window) × (delete_window_dataitem aname w ≡ returned w')
        × (w'.attr_map ≡ erase_name aname w.attr_map)
        × IsRegistered w'
        × (length w.attr_set ≡ w.last_id → length w'.attr_set ≡ w'.last_id)
  unfolding delete_window_dataitem
  delete_window_dataitem_at r h =
      let z =
        placed_user w.last_id a u
          (All-at (λ y. IsPlaced w.last_id y.1) aname a w.attr_map h r.placed) in
      let (b, at, n) =
        stored_user w.attr_set a u
          (All-at (λ y. IsStored w.attr_set y.1) aname a w.attr_map h r.in_set) in
      let (s, e, keeps, size) = delete_dataitem-keeps w.attr_set a.id b at (omega arith) in
      let keeps' : (i : ℕ) (x : Option Entry)
          → (i < a.id) ⊎ (a.id + width a.ncomp ≤ i)
          → get_elem? w.attr_set i ≡ some x
          → get_elem? s i ≡ some x =
        subst
          (λ k.
            (i : ℕ) (x : Option Entry)
            → (i < a.id) ⊎ (a.id + width k ≤ i)
            → get_elem? w.attr_set i ≡ some x
            → get_elem? s i ≡ some x)
          n keeps in
      let left =
        kept_items w.last_id a w.attr_set s keeps' (erase_name aname w.attr_map)
          (All-erase_name (λ y. IsPlaced w.last_id y.1) aname w.attr_map r.placed)
          (IsApart-erase_name aname a w.attr_map h r.separate)
          (All-erase_name (λ y. IsStored w.attr_set y.1) aname w.attr_map r.in_set) in
      let w1 : Window = record w { attr_set = s } in
      let size' : length s ≡ (if ends a == length w.attr_set then a.id else length w.attr_set) =
        subst
          (λ k.
            length s ≡ (if a.id + width k == length w.attr_set then a.id else length w.attr_set))
          n size in
      rw (h, delete_user_entry s e)
        (elim (Bool-cases (w.last_id == ends a)) [
          | inl last ↦
              let e : w.last_id ≡ ends a = ground arith in
              (
                drop_last aname a w1,
                rw last refl,
                refl,
                (record {
                  in_set = left;
                  placed =
                      placed-erase_name w.last_id a e u aname w.attr_map h r.above r.separate
                        r.placed;
                  separate = IsSeparate-erase_name aname w.attr_map r.separate;
                  above = u;
                }),
                λ even. set_size_last s a w.last_id (length w.attr_set) size' even last,
              )
          | inr inside ↦ (
            drop_inside aname w1,
            rw inside refl,
            refl,
            (record {
              in_set = left;
              placed = All-erase_name (λ y. IsPlaced w.last_id y.1) aname w.attr_map r.placed;
              separate = IsSeparate-erase_name aname w.attr_map r.separate;
              above = r.above;
            }),
            λ even. set_size_inside s a w.last_id (length w.attr_set) size' even inside,
          )
        ])
