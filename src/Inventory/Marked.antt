-- ===== src/Inventory/Marked.antt =====
-- applySoldOutInTx of server/src/services/inventory.ts and the entities that it is about.
use mathlib.Core.Path.{subst}
use boardbite_pos.Prelude.{
  ℕ, ◌≡◌, refl, ap, ◌∙◌, inl, inr, ◌⊎◌, Option-cases, Bool, true, false, Option, none, some, List,
  [], ◌∷◌, arith, ◌==◌, ==_iff, All, All-map, find-update, find-update-none, ok, both_ok,
  throw_if_ok, or_throw, or_throw_ok, ok_inj, if◌then◌else◌,
}
use boardbite_pos.Menu.{is_sold_out}
use boardbite_pos.Inventory.{
  Product, Sellable, Pantry, TargetKind, menu_item, option_choice, SoldOutTarget, product_of,
  linked, stock_of, sold_out_now, live_product, rows_of, with_rows, missing, sellable_of,
  find_target, mark_own, mark_target, mark_targets, among, mark_products, apply_sold_out, linked_by,
}

-- Whether the target is sold out, where it is there.
unfoldable pub target_now : SoldOutTarget → Pantry → Option Bool
target_now t pantry = elim (sellable_of t.id (rows_of t.kind pantry)) [
  | none ↦ none
  | some s ↦ some (sold_out_now s pantry.products)
]

-- A row of the target that is linked to a product of the list, or has the flag and no live product.
abbrev Ready : Bool → List Product → List ℕ → Sellable → Type 0
Ready flag ps ids s =
    ((k : ℕ) × (live_product (linked s ps) ≡ some k) × (among ids k ≡ true))
    ⊎ ((live_product (linked s ps) ≡ none) × (s.own_sold_out ≡ flag))

abbrev ReadyIn : Bool → List Product → List ℕ → ℕ → List Sellable → Type 0
ReadyIn flag ps ids k rows = (s : Sellable) × (sellable_of k rows ≡ some s) × Ready flag ps ids s

abbrev ReadyTarget : Bool → List ℕ → Pantry → SoldOutTarget → Type 0
ReadyTarget flag ids pantry t = ReadyIn flag pantry.products ids t.id (rows_of t.kind pantry)

marked-Ready :
    (flag b : Bool) (ps : List Product) (ids : List ℕ) (s : Sellable)
    → Ready flag ps ids s
    → Ready flag ps ids (if b then record s { own_sold_out = flag } else s)
unfolding linked
marked-Ready flag true ps ids s (inl h) = inl h
marked-Ready flag true ps ids s (inr (dead, own)) = inr (dead, refl)
marked-Ready flag false ps ids s h = h

mark_own-Ready :
    (flag : Bool) (ps : List Product) (ids : List ℕ) (j k : ℕ) (rows : List Sellable)
    → ReadyIn flag ps ids k rows
    → ReadyIn flag ps ids k (mark_own flag j rows)
unfolding mark_own
mark_own-Ready flag ps ids j k rows (s, found, ready) = (
  _,
  find-update (λ (r : Sellable). r.id) (λ r. r.id == j) (λ r. record r { own_sold_out = flag })
      (λ r. refl) k rows found,
  marked-Ready flag (s.id == j) ps ids s ready,
)

more_ids :
    (flag : Bool) (ps : List Product) (ids : List ℕ) (j : ℕ) (s : Sellable)
    → Ready flag ps ids s
    → Ready flag ps (j ∷ ids) s
more_ids flag ps ids j s (inl (k, live, in_ids)) = inl (k, live, ground arith)
more_ids flag ps ids j s (inr own) = inr own

-- The rows of the other kind stay, and so do the products.
mark_rows-Ready :
    (flag : Bool) (ids : List ℕ) (j : ℕ) (kind : TargetKind) (pantry : Pantry) (t : SoldOutTarget)
    → ReadyTarget flag ids pantry t
    → ReadyTarget flag ids (with_rows kind (mark_own flag j (rows_of kind pantry)) pantry) t
mark_rows-Ready flag ids j menu_item pantry t h = go t.kind h
  where
    go :
        (k : TargetKind)
        → ReadyIn flag pantry.products ids t.id (rows_of k pantry)
        → ReadyIn flag pantry.products ids t.id
            (rows_of k (with_rows menu_item (mark_own flag j pantry.menus) pantry))
    go menu_item h = mark_own-Ready flag pantry.products ids j t.id pantry.menus h
    go option_choice h = h
mark_rows-Ready flag ids j option_choice pantry t h = go t.kind h
  where
    go :
        (k : TargetKind)
        → ReadyIn flag pantry.products ids t.id (rows_of k pantry)
        → ReadyIn flag pantry.products ids t.id
            (rows_of k (with_rows option_choice (mark_own flag j pantry.choices) pantry))
    go menu_item h = h
    go option_choice h = mark_own-Ready flag pantry.products ids j t.id pantry.choices h

-- What one turn of the loop does: its target is ready, and those before it stay so.
record Turn (flag : Bool) (t : SoldOutTarget) (before : Pantry) (ids : List ℕ)
    (after : Pantry × List ℕ) : Type 0 where
  ready : ReadyTarget flag after.1 after.0 t
  keeps : (u : SoldOutTarget) → ReadyTarget flag ids before u → ReadyTarget flag after.1 after.0 u

found_marked :
    (flag : Bool) (k : ℕ) (rows : List Sellable) {s : Sellable}
    → sellable_of k rows ≡ some s
    → sellable_of k (mark_own flag s.id rows) ≡ some (record s { own_sold_out = flag })
unfolding mark_own
found_marked flag k rows {s} h =
    let own : (s.id == s.id) ≡ true = (==_iff s.id s.id).1 refl in
    find-update (λ (r : Sellable). r.id) (λ r. r.id == s.id) (λ r. record r { own_sold_out = flag })
      (λ r. refl) k rows h
    ∙ ap some (rw own refl)

fresh-Ready :
    (flag : Bool) (ids : List ℕ) (kind : TargetKind) (pantry : Pantry) (s : Sellable) (k : ℕ)
    → sellable_of k (rows_of kind pantry) ≡ some s
    → live_product (linked s pantry.products) ≡ none
    → ReadyTarget flag ids
        (with_rows kind (mark_own flag s.id (rows_of kind pantry)) pantry)
        (record { kind = kind; id = k })
unfolding linked
fresh-Ready flag ids menu_item pantry s k found dead =
    (record s { own_sold_out = flag }, found_marked flag k pantry.menus found, inr (dead, refl))
fresh-Ready flag ids option_choice pantry s k found dead =
    (record s { own_sold_out = flag }, found_marked flag k pantry.choices found, inr (dead, refl))

mark_target-Turn :
    (flag : Bool) (t : SoldOutTarget) (pantry : Pantry) (ids : List ℕ) {r : Pantry × List ℕ}
    → mark_target flag t pantry ids ≡ ok r
    → Turn flag t pantry ids r
unfolding mark_target find_target
mark_target-Turn flag t pantry ids e =
    let (s, found, e1) = both_ok (find_target t pantry) _ e in
    let (s0, there, e2) =
      both_ok (or_throw (sellable_of t.id (rows_of t.kind pantry)) (missing t.kind)) _ found in
    let (kept, e3) = throw_if_ok s0.is_deleted (missing t.kind) _ e2 in
    let s_is : s0 ≡ s = ok_inj _ refl e3 in
    let row : sellable_of t.id (rows_of t.kind pantry) ≡ some s =
      or_throw_ok _ (missing t.kind) there ∙ ap some s_is in
    elim (Option-cases (live_product (linked s pantry.products))) [
      | inl dead ↦ subst (Turn flag t pantry ids) (ok_inj _ refl (rw dead at e1)) (record {
        ready = fresh-Ready flag ids t.kind pantry s t.id row dead;
        keeps = λ u h. mark_rows-Ready flag ids s.id t.kind pantry u h;
      })
      | inr (k, live) ↦ subst (Turn flag t pantry ids) (ok_inj _ refl (rw live at e1)) (record {
        ready = (s, row, inl (k, live, ground arith));
        keeps = λ u (s1, at, h). (s1, at, more_ids flag pantry.products ids k s1 h);
      })
    ]

mark_targets-Ready :
    (flag : Bool) (ts : List SoldOutTarget) (pantry : Pantry) (ids : List ℕ) {r : Pantry × List ℕ}
    → mark_targets flag ts pantry ids ≡ ok r
    → All (ReadyTarget flag r.1 r.0) ts
      × ((u : SoldOutTarget) → ReadyTarget flag ids pantry u → ReadyTarget flag r.1 r.0 u)
unfolding mark_targets
mark_targets-Ready flag [] pantry ids {r} e =
    let is : (pantry, ids) ≡ r = ok_inj _ refl e in
    (tt, λ u h. subst (λ (t : Pantry × List ℕ). ReadyTarget flag t.1 t.0 u) is h)
mark_targets-Ready flag (t ∷ ts) pantry ids e =
    let (m, marked, e1) = both_ok (mark_target flag t pantry ids) _ e in
    let turn = mark_target-Turn flag t pantry ids marked in
    let (all, keeps) = mark_targets-Ready flag ts m.0 m.1 e1 in
    ((keeps t turn.ready, all), λ u h. keeps u (turn.keeps u h))

abbrev mark_product : Bool → ℕ → ℕ → Product → Product
mark_product flag now staff p = record p {
  is_sold_out = flag;
  sold_out_at = if flag then some now else none;
  sold_out_by = if flag then some staff else none;
}

module _ (flag : Bool) (now staff : ℕ) (ids : List ℕ) (ps : List Product) where
  product-mark :
      (k : ℕ) {p : Product}
      → product_of k ps ≡ some p
      → product_of k (mark_products flag now staff ids ps)
        ≡ some (if among ids p.id then mark_product flag now staff p else p)
  unfolding mark_products
  product-mark k h =
      find-update (λ (p : Product). p.id) (λ p. among ids p.id) (mark_product flag now staff)
        (λ p. refl) k ps h

  -- A product of the list is marked, and a row without one has the mark itself.
  product_sold :
      (own : Bool) (p : Product)
      → ((k : ℕ) × (live_product (some p) ≡ some k) × (among ids k ≡ true))
        ⊎ ((live_product (some p) ≡ none) × (own ≡ flag))
      → is_sold_out
          (stock_of (some (if among ids p.id then mark_product flag now staff p else p)))
          own
        ≡ flag
  unfolding is_sold_out
  product_sold own p (inl (k, live, listed)) = ground arith
  product_sold own p (inr (dead, own_is)) = ground arith

  no_product :
      (own : Bool)
      → ((k : ℕ) × (live_product none ≡ some k) × (among ids k ≡ true))
        ⊎ ((live_product none ≡ none) × (own ≡ flag))
      → is_sold_out none own ≡ flag
  unfolding is_sold_out
  no_product own (inl (k, live, listed)) = cc
  no_product own (inr (dead, own_is)) = own_is

  sold_target :
      (s : Sellable)
      → Ready flag ps ids s
      → sold_out_now s (mark_products flag now staff ids ps) ≡ flag
  unfolding sold_out_now linked mark_products is_sold_out
  sold_target s ready = go s.product_id ready
    where
      go :
          (o : Option ℕ)
          → ((k : ℕ) × (live_product (linked_by o ps) ≡ some k) × (among ids k ≡ true))
            ⊎ ((live_product (linked_by o ps) ≡ none) × (s.own_sold_out ≡ flag))
          → is_sold_out
              (stock_of (linked_by o (mark_products flag now staff ids ps)))
              s.own_sold_out
            ≡ flag
      go none h = no_product s.own_sold_out h
      go (some j) h = elim (Option-cases (product_of j ps)) [
        | inl gone ↦
            let still_gone : product_of j (mark_products flag now staff ids ps) ≡ none =
              find-update-none (λ (p : Product). p.id) (λ p. among ids p.id)
                (mark_product flag now staff) (λ p. refl) j ps gone in
            rw still_gone (no_product s.own_sold_out (rw gone at h))
        | inr (p, there) ↦ rw (product-mark j there) (product_sold s.own_sold_out p (rw there at h))
      ]

pub rows-products :
    (kind : TargetKind) (pantry : Pantry) (ps : List Product)
    → rows_of kind (record pantry { products = ps }) ≡ rows_of kind pantry
rows-products menu_item pantry ps = refl
rows-products option_choice pantry ps = refl

pub target_sold :
    (t : SoldOutTarget) (pantry : Pantry) (ps : List Product) {s : Sellable}
    → sellable_of t.id (rows_of t.kind pantry) ≡ some s
    → target_now t (record pantry { products = ps }) ≡ some (sold_out_now s ps)
unfolding target_now
target_sold t pantry ps found =
    let there = ap (sellable_of t.id) (rows-products t.kind pantry ps) ∙ found in
    rw (target_now, there) refl

-- When applySoldOutInTx succeeds, every target is afterwards sold out, or on sale again, as was
-- asked, whether its own flag decides or the product that it is linked to, and however the targets
-- repeat or share products.
pub apply_sold_out_all :
    (flag : Bool) (now staff : ℕ) (targets : List SoldOutTarget) (pantry : Pantry) {after : Pantry}
    → apply_sold_out flag now staff targets pantry ≡ ok after
    → All (λ t. target_now t after ≡ some flag) targets
unfolding apply_sold_out target_now
apply_sold_out_all flag now staff targets pantry {after} e =
    let (m, marked, e1) = both_ok (mark_targets flag targets pantry []) _ e in
    let (all, keeps) = mark_targets-Ready flag targets pantry [] marked in
    subst (λ (p : Pantry). All (λ t. target_now t p ≡ some flag) targets) (ok_inj _ refl e1)
      (All-map _ _
        (λ t (s, found, ready).
          target_sold t m.0 _ found ∙ ap some (sold_target flag now staff m.1 m.0.products s ready))
        targets all)
