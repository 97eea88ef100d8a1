-- ===== src/Inventory/Links.antt =====
-- setInventoryLink and deleteInventoryItem of server/src/services/inventory.ts.
use mathlib.Core.Path.{subst}
use boardbite_pos.Prelude.{
  ℕ, ◌+◌, ◌≡◌, refl, sym, ap, ◌∙◌, inl, inr, Bool-cases, Option-cases, Bool, true, false, not, ◌&&◌,
  Option, none, some, List, [], ◌∷◌, arith, ◌==◌, ==_iff, ltb, update, count, find_holds,
  find-update, find-update-none, some_inj, ok, both_ok, throw_if, throw_if_ok, or_throw,
  or_throw_ok, ok_inj, is_id,
}
use boardbite_pos.Menu.{is_sold_out}
use boardbite_pos.Inventory.{
  InventoryError, inventory_not_found, inventory_in_use, Product, Sellable, Pantry, TargetKind,
  menu_item, option_choice, SoldOutTarget, product_of, linked_by, linked, stock_of, sold_out_now,
  rows_of, with_rows, missing, sellable_of, find_target, check_product, set_link, delete_product,
}
use boardbite_pos.Inventory.Marked.{target_now, target_sold}

pub find_target_ok :
    (t : SoldOutTarget) (pantry : Pantry) {s : Sellable}
    → find_target t pantry ≡ ok s
    → (sellable_of t.id (rows_of t.kind pantry) ≡ some s) × (s.is_deleted ≡ false)
unfolding find_target
find_target_ok t pantry e =
    let (s0, there, e1) =
      both_ok (or_throw (sellable_of t.id (rows_of t.kind pantry)) (missing t.kind)) _ e in
    let (kept, e2) = throw_if_ok s0.is_deleted (missing t.kind) _ e1 in
    let s_is = ok_inj _ refl e2 in
    (
      or_throw_ok _ (missing t.kind) there ∙ ap some s_is,
      subst (λ (s : Sellable). s.is_deleted ≡ false) s_is kept,
    )

-- What the target is after it is linked: the product's state, or its own as it was.
abbrev pub linked_state : Option ℕ → SoldOutTarget → Pantry → Option Bool
linked_state none t pantry = target_now t pantry
linked_state (some k) t pantry = elim (product_of k pantry.products) [
  | none ↦ none
  | some p ↦ some p.is_sold_out
]

row_now :
    (t : SoldOutTarget) (pantry : Pantry) {s : Sellable}
    → sellable_of t.id (rows_of t.kind pantry) ≡ some s
    → target_now t pantry ≡ some (sold_out_now s pantry.products)
row_now t pantry found = target_sold t pantry pantry.products found

relinked_now :
    (k : ℕ) (product : Option ℕ) (own : Bool) (kind : TargetKind) (pantry : Pantry) (s : Sellable)
    → sellable_of k (rows_of kind pantry) ≡ some s
    → target_now
        (record { kind = kind; id = k })
        (with_rows kind
          (update
            (λ r. r.id == s.id)
            (λ r. record r { product_id = product; own_sold_out = own })
            (rows_of kind pantry))
          pantry)
      ≡ some (is_sold_out (stock_of (linked_by product pantry.products)) own)
unfolding target_now sold_out_now linked
relinked_now k product own menu_item pantry s found =
    let there =
      find-update (λ (r : Sellable). r.id) (λ r. r.id == s.id)
        (λ r. record r { product_id = product; own_sold_out = own }) (λ r. refl) k pantry.menus
        found in
    rw (target_now, there, (==_iff s.id s.id).1 refl) refl
relinked_now k product own option_choice pantry s found =
    let there =
      find-update (λ (r : Sellable). r.id) (λ r. r.id == s.id)
        (λ r. record r { product_id = product; own_sold_out = own }) (λ r. refl) k pantry.choices
        found in
    rw (target_now, there, (==_iff s.id s.id).1 refl) refl

state_of_product :
    (k : ℕ) (own : Bool) (t : SoldOutTarget) (pantry : Pantry) {p : Product}
    → product_of k pantry.products ≡ some p
    → p.is_deleted ≡ false
    → some (is_sold_out (stock_of (linked_by (some k) pantry.products)) own)
      ≡ linked_state (some k) t pantry
unfolding is_sold_out
state_of_product k own t pantry there live = rw (linked_state, there, live) refl

not_thrown : (b : Bool) (e : InventoryError) → throw_if b e ≡ ok tt → b ≡ false
not_thrown true e h = cc
not_thrown false e h = refl

-- Giving a sellable a link, or taking it away, leaves it sold out exactly when the product is, and
-- as it was when no product is named.
pub set_link_state :
    (t : SoldOutTarget) (product : Option ℕ) (pantry : Pantry) {after : Pantry}
    → set_link t product pantry ≡ ok after
    → target_now t after ≡ linked_state product t pantry
unfolding set_link check_product is_sold_out
set_link_state t none pantry e =
    let (s, found, e1) = both_ok (find_target t pantry) _ e in
    let (there, kept) = find_target_ok t pantry found in
    subst (λ p. target_now t p ≡ target_now t pantry) (ok_inj _ refl e1)
      (relinked_now t.id none (sold_out_now s pantry.products) t.kind pantry s there
        ∙ sym (row_now t pantry there))
set_link_state t (some k) pantry e =
    let (u, checked, e0) = both_ok (check_product (some k) pantry.products) _ e in
    let (p, stocked, c1) =
      both_ok (or_throw (product_of k pantry.products) inventory_not_found) _ checked in
    let live = not_thrown p.is_deleted inventory_not_found c1 in
    let (s, found, e1) = both_ok (find_target t pantry) _ e0 in
    let (there, kept) = find_target_ok t pantry found in
    let is_there = or_throw_ok _ inventory_not_found stocked in
    subst (λ r. target_now t r ≡ linked_state (some k) t pantry) (ok_inj _ refl e1)
      (relinked_now t.id (some k) s.own_sold_out t.kind pantry s there
        ∙ state_of_product k s.own_sold_out t pantry is_there live)

no_user :
    (k : ℕ) (j : ℕ) (rows : List Sellable) {s : Sellable}
    → count (λ r. is_id r.product_id k && not r.is_deleted) rows ≡ 0
    → sellable_of j rows ≡ some s
    → s.is_deleted ≡ false
    → is_id s.product_id k ≡ false
no_user k j [] h found live = cc
no_user k j (r ∷ rows) {s} h found live = elim (Bool-cases (r.id == j)) [
  | inl here ↦
      let same : r ≡ s = some_inj (rw here at found) in
      let still : r.is_deleted ≡ false = rw same live in rw (sym same) (ground (arith, h, still))
  | inr off ↦ no_user k j rows (ground (arith, h)) (rw off at found) live
]

other_product :
    (k : ℕ) (o : Option ℕ) (own : Bool) (ps : List Product)
    → is_id o k ≡ false
    → is_sold_out
        (stock_of (linked_by o (update (λ q. q.id == k) (λ q. record q { is_deleted = true }) ps)))
        own
      ≡ is_sold_out (stock_of (linked_by o ps)) own
other_product k none own ps h = refl
other_product k (some j) own ps h =
    let mark : Product → Product = λ q. record q { is_deleted = true } in
    elim (Option-cases (product_of j ps)) [
      | inl gone ↦
          rw
            (
              gone,
              find-update-none (λ (q : Product). q.id) (λ q. q.id == k) mark (λ q. refl) j ps gone,
            )
            refl
      | inr (p, there) ↦
          let id_is : p.id ≡ j =
            (==_iff p.id j).0 (find_holds (λ (q : Product). q.id == j) ps there) in
          let apart : (p.id == k) ≡ false = rw id_is h in
          rw
            (
              find-update (λ (q : Product). q.id) (λ q. q.id == k) mark (λ q. refl) j ps there,
              apart,
              there,
            )
            refl
    ]

-- Deleting a stock product leaves every sellable that is found as sold out as it was.
pub delete_product_keeps :
    (k : ℕ) (t : SoldOutTarget) (pantry : Pantry) {s : Sellable} {after : Pantry}
    → find_target t pantry ≡ ok s
    → delete_product k pantry ≡ ok after
    → target_now t after ≡ target_now t pantry
unfolding delete_product sold_out_now linked
delete_product_keeps k t pantry {s} found e =
    let (p, there, e1) =
      both_ok (or_throw (product_of k pantry.products) inventory_not_found) _ e in
    let (live, e2) = throw_if_ok p.is_deleted inventory_not_found _ e1 in
    let menus = count (λ (r : Sellable). is_id r.product_id k && not r.is_deleted) pantry.menus in
    let choices =
      count (λ (r : Sellable). is_id r.product_id k && not r.is_deleted) pantry.choices in
    let (unused, e3) = throw_if_ok (ltb 0 (menus + choices)) inventory_in_use _ e2 in
    let (row, kept) = find_target_ok t pantry found in
    let apart = go t.kind row kept (ground arith) (ground arith) in
    subst (λ q. target_now t q ≡ target_now t pantry) (ok_inj _ refl e3)
      (target_sold t pantry _ row
        ∙ ap some (other_product k s.product_id s.own_sold_out pantry.products apart)
        ∙ sym (row_now t pantry row))
  where
    go :
        (kind : TargetKind)
        → sellable_of t.id (rows_of kind pantry) ≡ some s
        → s.is_deleted ≡ false
        → count (λ r. is_id r.product_id k && not r.is_deleted) pantry.menus ≡ 0
        → count (λ r. is_id r.product_id k && not r.is_deleted) pantry.choices ≡ 0
        → is_id s.product_id k ≡ false
    go menu_item row kept m c = no_user k t.id pantry.menus m row kept
    go option_choice row kept m c = no_user k t.id pantry.choices c row kept
