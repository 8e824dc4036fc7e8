-- ===== src/Inventory/Consumers/Delivered.antt =====
-- Deliveries of events to the Inventory service.
use smart_logistics.Base.{
  ℕ, ◌≡◌, sym, ap, ◌∙◌, String, Option, none, some, List, str_eq, Bool-cases, inl, inr,
}
use smart_logistics.Platform.Errors.{ok, ok-injective}
use smart_logistics.Platform.Session.{Tx, ◌>>◌, >>-eq-ok, pure}
use smart_logistics.Platform.Events.{EventEnvelope}
use smart_logistics.Platform.Consumer.{Consumer, handle_all}
use smart_logistics.Platform.Consumer.Keeps.{timed, handle_all-keeps}
use smart_logistics.Inventory.Models.{Db}
use smart_logistics.Inventory.Reservations.{confirm, commit, release}
use smart_logistics.Inventory.Accounts.Valid.{IsValid}
use smart_logistics.Inventory.System.{confirms, commits, releases, learns, Step-IsValid}
use smart_logistics.Inventory.Consumers.{
  ConsumedPayload, warehouse_snapshot, shipment_event, on_warehouse_snapshot, on_shipment_created,
  on_shipment_status_changed, follow_status, reason_or_default, is_snapshot, processor_handlers,
}

-- A method whose result is dropped.
dropped :
    (m : Tx Db ℕ) (db db' : Db) → (m >> pure tt) db ≡ ok (tt, db') → (n : ℕ) × (m db ≡ ok (n, db'))
dropped m db db' run =
    let (n, s, e, r) = >>-eq-ok m (pure tt) run in
    (n, e ∙ ap (λ (x : Unit {0} × Db). ok (n, x.1)) (ok-injective _ _ r))

snapshot-IsValid :
    (p : ConsumedPayload) (e : EventEnvelope ConsumedPayload) (db db' : Db)
    → on_warehouse_snapshot (record e { payload = p }) db ≡ ok (tt, db')
    → IsValid db
    → IsValid db'
unfolding on_warehouse_snapshot
snapshot-IsValid (warehouse_snapshot s) e db db' run v = Step-IsValid (learns s run) v
snapshot-IsValid (shipment_event i s r) e db db' run v = absurd (cc run)

created-IsValid :
    (now : ℕ) (p : ConsumedPayload) (e : EventEnvelope ConsumedPayload) (db db' : Db)
    → on_shipment_created now (record e { payload = p }) db ≡ ok (tt, db')
    → IsValid db
    → IsValid db'
unfolding on_shipment_created
created-IsValid now (warehouse_snapshot s) e db db' run v = absurd (cc run)
created-IsValid now (shipment_event i s r) e db db' run v =
    let (n, run') = dropped (confirm now i) db db' run in Step-IsValid (confirms now i n run') v

follow_status-IsValid :
    (now i : ℕ) (status : String) (reason : Option String) (db db' : Db)
    → follow_status now i status reason db ≡ ok (tt, db')
    → IsValid db
    → IsValid db'
unfolding follow_status
follow_status-IsValid now i status reason db db' run v =
    elim (Bool-cases (str_eq status "dispatched")) [
      | inl out ↦
          let (n, run') = dropped (commit now none i) db db' (rw out at run) in
          Step-IsValid (commits now i n none run') v
      | inr other ↦ elim (Bool-cases (str_eq status "cancelled")) [
        | inl off ↦
            let (n, run') =
              dropped (release now i (reason_or_default reason)) db db' (rw (other, off) at run) in
            Step-IsValid (releases now i n (reason_or_default reason) run') v
        | inr none_of_them ↦
            rw
              (ap (λ (x : Unit {0} × Db). x.1)
                (sym (ok-injective _ _ (rw (other, none_of_them) at run))))
              v
      ]
    ]

status-IsValid :
    (now : ℕ) (p : ConsumedPayload) (e : EventEnvelope ConsumedPayload) (db db' : Db)
    → on_shipment_status_changed now (record e { payload = p }) db ≡ ok (tt, db')
    → IsValid db
    → IsValid db'
unfolding on_shipment_status_changed
status-IsValid now (warehouse_snapshot s) e db db' run v = absurd (cc run)
status-IsValid now (shipment_event i s r) e db db' run v =
    follow_status-IsValid now i s r db db' run v

handlers-IsValid :
    (now : ℕ) (e : EventEnvelope ConsumedPayload)
    (handler : EventEnvelope ConsumedPayload → Tx Db Unit) (db db' : Db)
    → processor_handlers now e.event_type ≡ some handler
    → handler e db ≡ ok (tt, db')
    → IsValid db
    → IsValid db'
unfolding processor_handlers
handlers-IsValid now e handler db db' chosen run v = elim (Bool-cases (is_snapshot e.event_type)) [
  | inl snap ↦
      snapshot-IsValid e.payload e db db' (served on_warehouse_snapshot (rw snap at chosen)) v
  | inr other ↦ elim (Bool-cases (str_eq e.event_type "shipment.created")) [
    | inl made ↦
        created-IsValid now e.payload e db db'
          (served (on_shipment_created now) (rw (other, made) at chosen)) v
    | inr old ↦ elim (Bool-cases (str_eq e.event_type "shipment.status_changed")) [
      | inl moved ↦
          status-IsValid now e.payload e db db'
            (served (on_shipment_status_changed now) (rw (other, old, moved) at chosen)) v
      | inr unknown ↦ absurd (cc (rw (other, old, unknown) at chosen))
    ]
  ]
]
  where
    served :
        (h : EventEnvelope ConsumedPayload → Tx Db Unit)
        → some h ≡ some handler
        → h e db ≡ ok (tt, db')
    served h same =
        ap
          (λ (o : Option (EventEnvelope ConsumedPayload → Tx Db Unit)). elim o [
            | none ↦ h e db
            | some k ↦ k e db
          ])
          same
        ∙ run

-- From a valid database on, whatever events are delivered to the Inventory service, in whatever
-- order, however often and at whatever times, and whichever attempts fail, the accounts of stock
-- are valid after them.
pub handle_all-IsValid :
    (max_attempts : ℕ) (messages : List ((ℕ → ℕ) × Option (EventEnvelope ConsumedPayload)))
    (c : Consumer Db)
    → IsValid c.db
    → IsValid (handle_all max_attempts (timed processor_handlers messages) c).db
handle_all-IsValid max_attempts messages c v =
    handle_all-keeps IsValid processor_handlers handlers-IsValid max_attempts messages c v
