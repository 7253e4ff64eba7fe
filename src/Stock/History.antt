-- ===== src/Stock/History.antt =====
-- A history of stock adjustments of one item, made one after the other by
-- server/internal/storage/stock_adjustments.go.
use mathlib.Core.Path.{subst}
use household_objects_srv.Prelude.{
  ℕ, ◌+◌, ◌%◌, add64, word, words, word-add64, word-mod, String, ◌≡◌, sym, ap, ◌∙◌, some, List, [],
  ◌∷◌, arith, Result, ok, ◌>>=◌, >>=-eq-ok, length,
}
use household_objects_srv.Push.Types.{ItemRow, Store, PushError}
use household_objects_srv.Push.Items.{get_item}
use household_objects_srv.Stock.{CreateStockAdjustmentParams, create_adjustment, adjusted}
use household_objects_srv.Stock.Adjusted.{create_adjustment-Adjusts}

-- Adjustments of one item, up to the first that fails.
unfoldable pub adjust_all :
    Store → String → String → List CreateStockAdjustmentParams → Result PushError Store
adjust_all s group item [] = ok s
adjust_all s group item (p ∷ ps) = do
  (row, s') ← create_adjustment s group (record p { item_id = item })
  adjust_all s' group item ps

-- The sum of the deltas, each as the number that its 64 bits are.
abbrev pub total : List CreateStockAdjustmentParams → ℕ
total [] = 0
total (p ∷ ps) = word p.delta + total ps

-- The item after a history of adjustments.
pub record Balanced (s : Store) (group item : String) (before : ItemRow)
    (ps : List CreateStockAdjustmentParams) (s' : Store) : Type 0 where
  pub after : ItemRow
  pub found : get_item s' group item ≡ some after
  pub quantity : word after.quantity ≡ (word before.quantity + total ps) % words
  pub version : after.version ≡ before.version + length ps

some-injective : {A : Type 0} (a b : A) → some a ≡ some b → a ≡ b
some-injective a b h = cc

add_nothing : (a : ℕ) → a ≡ a + 0
add_nothing a = omega arith

add_total : (a d t : ℕ) → ((a + d) % words + t) % words ≡ (a + (d + t)) % words
add_total a d t = omega arith

-- After any adjustments of an item that return no error, its quantity is, modulo 2^64, what it was plus
-- the sum of the deltas, and its version has gone up by their number.
pub adjust_all-Balanced :
    (s : Store) (group item : String) (before : ItemRow) (ps : List CreateStockAdjustmentParams)
    (s' : Store)
    → get_item s group item ≡ some before
    → adjust_all s group item ps ≡ ok s'
    → Balanced s group item before ps s'
unfolding adjust_all
adjust_all-Balanced s group item before [] s' found h =
    let same : s ≡ s' = ground arith in
    record {
      after = before;
      found = subst (λ s. get_item s group item ≡ some before) same found;
      quantity =
          sym (word-mod before.quantity) ∙ ap (λ w. w % words) (add_nothing (word before.quantity));
      version = omega arith;
    }
adjust_all-Balanced s group item before (p ∷ ps) s' found h =
    let ((row, s₁), made, rest) =
      >>=-eq-ok (create_adjustment s group (record p { item_id = item })) _ h in
    let done = create_adjustment-Adjusts s group (record p { item_id = item }) row s₁ made in
    let same = some-injective done.before before (sym done.found ∙ found) in
    let next =
      adjust_all-Balanced s₁ group item
        (adjusted (add64 done.before.quantity p.delta) p.now done.seq done.before) ps s' done.after
        rest in
    record {
      after = next.after;
      found = next.found;
      quantity =
          next.quantity
          ∙ ap (λ w. (w + total ps) % words) (word-add64 done.before.quantity p.delta)
          ∙ add_total (word done.before.quantity) (word p.delta) (total ps)
          ∙ ap (λ (r : ItemRow). (word r.quantity + total (p ∷ ps)) % words) same;
      version =
          (let grown = next.version in
            let again = ap (λ (r : ItemRow). r.version) same in omega arith);
    }
