-- ===== src/Inventory/Reserve/Made.antt =====
-- `reserve` on a valid database: what it holds, and the accounts after it.
use smart_logistics.Base.{
  ℕ, ◌+◌, ◌≡◌, sym, ap, ◌∙◌, Bool, true, false, ◌||◌, not, none, List, [], ◌∷◌, ◌++◌, map, arith,
  rows_where, update_where, contains, ◌==◌,
}
use smart_logistics.Platform.Errors.{ok, ok-injective, reservation_mismatch}
use smart_logistics.Platform.Session.{>>=-eq-ok, >>-eq-ok, raise_if-ok, lift}
use smart_logistics.Inventory.Models.{Db, InventoryReservation, Sku, flush}
use smart_logistics.Inventory.Events.{emit_stock_event, stock_reserved}
use smart_logistics.Inventory.Schemas.{ReservationRequest, ReservationResult}
use smart_logistics.Inventory.Replicas.{require_operational}
use smart_logistics.Inventory.Holds.{for_each, release_row, is_lapsed_on}
use smart_logistics.Inventory.Reservations.{
  lock_items, for_shipment, expire_unconfirmed, expired_reason,
}
use smart_logistics.Inventory.Reservations.Selects.{emit_stock_event-eq, with_event}
use smart_logistics.Inventory.Reservations.Expiry.{expire_unconfirmed-total}
use smart_logistics.Inventory.Reserve.{
  reserve, reserve_after, hold_all, hold_lines, check_stock, hold_line, load_skus, load_skus_any,
  replay, result, wanted, held_pairs, same_set,
}
use smart_logistics.Inventory.Reserve.Holding.{Held, HeldAs, hold_loop}
use smart_logistics.Inventory.Accounts.Positions.{Consistent-Booked}
use smart_logistics.Inventory.Accounts.Booked.{IsBooked, flush-eq, booked-IsValid}
use smart_logistics.Inventory.Accounts.Valid.{IsValid, IsValid-outbox, Below-le, item_ids}
use smart_logistics.Inventory.Reserve.Checks.{
  KeepsDb, lift-KeepsDb, require_operational-KeepsDb, load_skus-KeepsDb, check_stock-KeepsDb,
  lock_items-KeepsDb, for_shipment-KeepsDb,
}

-- What a reservation that held stock leaves: the accounts, the lapsed holds on the positions
-- released, one new hold for each line, and the ledger as it was.
pub record Reserves (now unconfirmed_hold : ℕ) (request : ReservationRequest) (before after : Db)
    : Type 0 where
  pub valid : IsValid after
  pub reclaimed : List ℕ
  pub made : List InventoryReservation
  pub made_as : HeldAs request (now + unconfirmed_hold) request.lines made
  pub rows :
      after.reservations
      ≡ update_where
          (is_lapsed_on now reclaimed)
          (release_row expired_reason now)
          before.reservations
        ++ made
  pub ledger : after.movements ≡ before.movements

hold_lines-Held :
    (request : ReservationRequest) (expires_at : ℕ) (items : List (ℕ × ℕ)) (skus : List Sku)
    (r : ReservationResult) (db db' : Db)
    → hold_lines request expires_at items skus db ≡ ok (r, db')
    → IsBooked db
    → IsValid db' × Held request expires_at request.lines db db'
unfolding hold_lines
hold_lines-Held request expires_at items skus r db db' run b =
    let (_, s1, e1, r1) =
      >>-eq-ok (for_each (hold_line request expires_at items) request.lines) _ run in
    let (_, s2, e2, r2) = >>-eq-ok flush _ r1 in
    let (holds, s3, e3, r3) = >>=-eq-ok (for_shipment request.shipment_id) _ r2 in
    let (_, s4, e4, r4) =
      >>-eq-ok (emit_stock_event stock_reserved request.shipment_id request.warehouse_id holds none)
        _ r3 in
    let held = hold_loop request expires_at items request.lines db s1 e1 b in
    let (same2, ci, cr, cm, u) = flush-eq _ s1 s2 e2 in
    let same3 : s3 ≡ s1 = for_shipment-KeepsDb request.shipment_id holds s2 s3 e3 ∙ same2 in
    let last =
      lift-KeepsDb (result request.shipment_id request.warehouse_id holds skus) r s4 db' r4 in
    let sent =
      ap (λ (p : Unit {0} × Db). p.1)
        (ok-injective _ _ (
          sym e4
          ∙ emit_stock_event-eq stock_reserved request.shipment_id request.warehouse_id holds none
              s3)) in
    let whole : db'
        ≡ with_event s1 stock_reserved request.shipment_id request.warehouse_id holds none =
      last
      ∙ sent
      ∙ ap
          (λ (d : Db).
            with_event d stock_reserved request.shipment_id request.warehouse_id holds none)
          same3 in
    let valid = booked-IsValid s1 held.booked ci cr cm u in
    rw whole (
      IsValid-outbox s1 _ _ (omega arith) valid,
      record {
        booked = record {
          positions = held.booked.positions;
          references = held.booked.references;
          entries = held.booked.entries;
          fresh =
              Below-le s1.next_id (s1.next_id + 1) (item_ids s1.items) (omega arith)
                held.booked.fresh;
        };
        made = held.made;
        made_as = held.made_as;
        rows = held.rows;
        ledger = held.ledger;
      },
    )

-- The lock and the reclaim before the loop.
hold_all-Reserves :
    (now unconfirmed_hold : ℕ) (request : ReservationRequest) (r : ReservationResult) (db db' : Db)
    → hold_all now unconfirmed_hold request db ≡ ok (r, db')
    → IsValid db
    → Reserves now unconfirmed_hold request db db'
unfolding hold_all
hold_all-Reserves now unconfirmed_hold request r db db' run v =
    let (ref, s1, e1, r1) = >>-eq-ok (require_operational request.warehouse_id) _ run in
    let (skus, s2, e2, r2) = >>=-eq-ok (load_skus (map (λ l. l.sku_id) request.lines)) _ r1 in
    let (items, s3, e3, r3) =
      >>=-eq-ok (lock_items request.warehouse_id (map (λ s. s.id) skus)) _ r2 in
    let ids = map (λ (p : ℕ × ℕ). p.1) items in
    let (n, s4, e4, r4) = >>-eq-ok (expire_unconfirmed now ids) _ r3 in
    let (_, s5, e5, r5) = >>-eq-ok (check_stock request.lines items skus) _ r4 in
    let same3 : s3 ≡ db =
      lock_items-KeepsDb _ _ items s2 s3 e3
      ∙ load_skus-KeepsDb _ skus s1 s2 e2
      ∙ require_operational-KeepsDb _ ref db s1 e1 in
    let (s4', e4', left) = expire_unconfirmed-total now ids db v in
    let same4 : s4 ≡ s4' =
      ap (λ (p : ℕ × Db). p.1)
        (ok-injective _ _ (sym e4 ∙ ap (expire_unconfirmed now ids) same3 ∙ e4')) in
    let same5 : s5 ≡ s4' = check_stock-KeepsDb request.lines items skus _ s4 s5 e5 ∙ same4 in
    let b : IsBooked s5 = rw same5 (record {
      positions = Consistent-Booked _ _ s4'.items left.valid.positions;
      references = left.valid.references;
      entries = left.valid.entries;
      fresh = left.valid.fresh;
    }) in
    let (valid, held) = hold_lines-Held request (now + unconfirmed_hold) items skus r s5 db' r5 b in
    record {
      valid = valid;
      reclaimed = ids;
      made = held.made;
      made_as = held.made_as;
      rows =
          held.rows
          ∙ ap (λ (l : List InventoryReservation). l ++ held.made)
              (ap (λ (d : Db). d.reservations) same5 ∙ left.rows);
      ledger = held.ledger ∙ ap (λ (d : Db). d.movements) same5 ∙ left.ledger;
    }

-- A replay changes nothing.
replay-KeepsDb :
    (request : ReservationRequest) (h : InventoryReservation) (hs : List InventoryReservation)
    → KeepsDb (replay request h hs)
unfolding replay load_skus_any
replay-KeepsDb request h hs a db db' run =
    let skus = rows_where (λ (s : Sku). contains (map (λ k. k.sku_id) (h ∷ hs)) s.id) db.skus in
    let answer = result request.shipment_id request.warehouse_id (h ∷ hs) skus in
    lift-KeepsDb answer a db db'
      (raise_if-ok
        (not (same_set (wanted request) (held_pairs (h ∷ hs)))
          || not (h.warehouse_id == request.warehouse_id))
        reservation_mismatch
        (λ s.
          lift
            (result request.shipment_id request.warehouse_id (h ∷ hs)
              (rows_where (λ (k : Sku). contains (map (λ r. r.sku_id) (h ∷ hs)) k.id) s.skus))
            s)
        run).1

-- All holds of a shipment, open or not.
abbrev pub holds_of : ℕ → Db → List InventoryReservation
holds_of shipment_id db = rows_where (λ r. r.shipment_id == shipment_id) db.reservations

-- What a reserve that returned has done: with no hold of the shipment before, it made the holds; else
-- it made none and changed nothing.
abbrev pub ReserveOutcome :
    ℕ → ℕ → ReservationRequest → Db → Bool → Db → List InventoryReservation → Type 0
ReserveOutcome now unconfirmed_hold request db created db' [] =
    (created ≡ true) × Reserves now unconfirmed_hold request db db'
ReserveOutcome now unconfirmed_hold request db created db' (h ∷ hs) = (created ≡ false) × (db' ≡ db)

reserve_after-outcome :
    (now unconfirmed_hold : ℕ) (request : ReservationRequest) (hs : List InventoryReservation)
    (r : ReservationResult) (created : Bool) (db db' : Db)
    → reserve_after now unconfirmed_hold request hs db ≡ ok ((r, created), db')
    → IsValid db
    → ReserveOutcome now unconfirmed_hold request db created db' hs
unfolding reserve_after
reserve_after-outcome now unconfirmed_hold request [] r created db db' run v =
    let (made, s1, e1, r1) = >>=-eq-ok (hold_all now unconfirmed_hold request) _ run in
    let same : ((made, true), s1) ≡ ((r, created), db') = ok-injective _ _ r1 in
    (
      ap (λ (p : (ReservationResult × Bool) × Db). p.0.1) (sym same),
      rw (← ap (λ (p : (ReservationResult × Bool) × Db). p.1) same)
          (hold_all-Reserves now unconfirmed_hold request made db s1 e1 v),
    )
reserve_after-outcome now unconfirmed_hold request (h ∷ hs) r created db db' run v =
    let (known, s1, e1, r1) = >>=-eq-ok (replay request h hs) _ run in
    let same : ((known, false), s1) ≡ ((r, created), db') = ok-injective _ _ r1 in
    (
      ap (λ (p : (ReservationResult × Bool) × Db). p.0.1) (sym same),
      ap (λ (p : (ReservationResult × Bool) × Db). p.1) (sym same)
          ∙ replay-KeepsDb request h hs known db s1 e1,
    )

-- On a valid database, a reserve that returns has either held every line of the request, where the
-- shipment had no hold (one new hold for each line, held, unconfirmed and due after the
-- configured time; other holds change only by the release of lapsed ones; the database is valid
-- again), or, where it had one, has made no hold and changed nothing.
pub reserve-outcome :
    (now unconfirmed_hold : ℕ) (request : ReservationRequest) (r : ReservationResult)
    (created : Bool) (db db' : Db)
    → IsValid db
    → reserve now unconfirmed_hold request db ≡ ok ((r, created), db')
    → ReserveOutcome now unconfirmed_hold request db created db' (holds_of request.shipment_id db)
unfolding reserve for_shipment
reserve-outcome now unconfirmed_hold request r created db db' v run =
    reserve_after-outcome now unconfirmed_hold request (holds_of request.shipment_id db) r created
      db db' run v
