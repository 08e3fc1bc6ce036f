-- ===== src/Gateway/Receipts/Events.antt =====
-- The gateway reads from a receipt what the engine put into its events.
use koinos_evm_engine.Base.{
  ℕ, zero, suc, ◌+◌, ◌<◌, ◌≡◌, ◌≢◌, ◌⊎◌, refl, sym, ap, ◌∙◌, Bool, true, false, Option, none, some,
  Option-cases, inl, inr, List, [], ◌∷◌, ◌++◌, map, append_assoc, append-nil, length, length-append,
  All, bytes_eq, bytes_eq_refl, bytes_eq_ne, if◌then◌else◌, arith,
}
use koinos_evm_engine.Base.Words.{Bytes, IsU64}
use koinos_evm_engine.Base.Text.{codes}
use koinos_evm_engine.Engine.Proto
use koinos_evm_engine.Engine.Proto.{
  usize_limit, encode_varint, encode_tag, wire_varint, encode_varint_loop, decode_varint,
  decode_varint_loop, encode_varint_field, encode_bytes_field, Field, FieldIter, varint,
}
use koinos_evm_engine.Engine.Proto.Fields.{
  IsWritten, encode_varint_field-append, encode_bytes_field-append,
}
use koinos_evm_engine.Engine.Proto.Messages.{encode_message}
use koinos_evm_engine.Engine.Proto.Compose.{
  opt_varint, opt_bytes, add_varint, add_bytes, encode_message-nil, All-append,
  opt_varint-IsWritten, opt_bytes-IsWritten,
}
use koinos_evm_engine.Engine.Evm.{Log, evm_result_event, topic_fields, evm_log_payload}
use koinos_evm_engine.Engine.Evm.Messages.{opt_address, opt_address-IsWritten}
use koinos_evm_engine.Gateway.EngineProto.{
  ProtoError, Result, ok, err, ◌>>=!◌, ProtoIter, ProtoField, next, items_from, items, flat_from,
  flat_items,
}
use koinos_evm_engine.Gateway.EngineProto.Read.{as_item, as_iter, next_agrees}
use koinos_evm_engine.Gateway.EngineProto.Agree.{
  items_of, items_from_step, items_from-encode_message,
}
use koinos_evm_engine.Gateway.Receipts.{
  LogRow, DecodedEvents, Event, result_field, result_fields, log_field, log_fields, empty_row,
  empty_events, decode_event, decode_events, decode_receipt_events,
}

Result-cases {ℓ} :
    {A : Type ℓ} (r : Result A) → ((v : A) × (r ≡ ok v)) ⊎ ((e : ProtoError) × (r ≡ err e))
Result-cases (ok v) = inl (v, refl)
Result-cases (err e) = inr (e, refl)

-- Where no error comes up, there is nothing to pass over.
flat_from_eq :
    (fuel : ℕ) (it : ProtoIter) (fs : List ProtoField)
    → items_from fuel it ≡ ok fs
    → flat_from fuel it ≡ ok fs
unfolding items_from flat_from
flat_from_eq zero it fs h = h
flat_from_eq (suc fuel) it fs h = elim (Option-cases (next it)) [
  | inl end ↦ ground (arith, h, end)
  | inr ((item, it'), found) ↦ elim (Result-cases item) [
    | inr (e, bad) ↦ absurd (ground (arith, h, found, bad))
    | inl (f, good) ↦ elim (Result-cases (items_from fuel it')) [
      | inr (e, fails) ↦ absurd (ground (arith, h, found, good, fails))
      | inl (rest, reads) ↦ ground (arith, h, found, good, reads, flat_from_eq fuel it' rest reads)
    ]
  ]
]

flat_items_eq : (buf : Bytes) (fs : List ProtoField) → items buf ≡ ok fs → flat_items buf ≡ ok fs
unfolding items flat_items
flat_items_eq buf fs h = flat_from_eq _ _ fs h

abbrev topics_list : List Bytes → List Field
topics_list [] = []
topics_list (t ∷ ts) = opt_bytes 2 t ++ topics_list ts

add_topics :
    (fs : List Field) (ts : List Bytes)
    → topic_fields (encode_message fs) ts ≡ encode_message (fs ++ topics_list ts)
unfolding topic_fields
add_topics fs [] = ap encode_message (sym (append-nil fs))
add_topics fs (t ∷ ts) =
    ap (λ (b : Bytes). topic_fields b ts) (add_bytes fs 2 t)
    ∙ add_topics (fs ++ opt_bytes 2 t) ts
    ∙ ap encode_message (append_assoc fs (opt_bytes 2 t) (topics_list ts))

abbrev log_message_fields : Log → List Field
log_message_fields l = (opt_bytes 1 l.address ++ topics_list l.topics) ++ opt_bytes 3 l.payload

log_message : (l : Log) → evm_log_payload l ≡ encode_message (log_message_fields l)
unfolding evm_log_payload
log_message l =
    ap
      (λ (b : Bytes).
        encode_bytes_field (topic_fields (encode_bytes_field b 1 l.address) l.topics) 3 l.payload)
      encode_message-nil
    ∙ ap (λ (b : Bytes). encode_bytes_field (topic_fields b l.topics) 3 l.payload)
        (add_bytes [] 1 l.address)
    ∙ ap (λ (b : Bytes). encode_bytes_field b 3 l.payload)
        (add_topics (opt_bytes 1 l.address) l.topics)
    ∙ add_bytes (opt_bytes 1 l.address ++ topics_list l.topics) 3 l.payload

topics_list-IsWritten : (ts : List Bytes) → All IsWritten (topics_list ts)
topics_list-IsWritten [] = tt
topics_list-IsWritten (t ∷ ts) =
    All-append IsWritten (opt_bytes 2 t) (topics_list ts) (opt_bytes-IsWritten 2 t (omega arith))
      (topics_list-IsWritten ts)

log_fields-IsWritten : (l : Log) → All IsWritten (log_message_fields l)
log_fields-IsWritten l =
    All-append IsWritten (opt_bytes 1 l.address ++ topics_list l.topics) (opt_bytes 3 l.payload)
      (All-append IsWritten (opt_bytes 1 l.address) (topics_list l.topics)
        (opt_bytes-IsWritten 1 l.address (omega arith)) (topics_list-IsWritten l.topics))
      (opt_bytes-IsWritten 3 l.payload (omega arith))

-- A log as the engine emits it: an address of 20 bytes, topics that are not empty, and a message
-- that fits the memory.
pub record IsLog (l : Log) : Type 0 where
  pub address_size : length l.address ≡ 20
  pub topics_ne : All (λ t. t ≢ []) l.topics
  pub fits : length (evm_log_payload l) < usize_limit

read_rest :
    (row : LogRow) (ts : List Bytes) (payload : Bytes)
    → All (λ t. t ≢ []) ts
    → row.payload ≡ []
    → log_fields row (map as_item (topics_list ts ++ opt_bytes 3 payload))
      ≡ record row { topics = row.topics ++ ts; payload = payload }
unfolding log_fields log_field
read_rest row [] [] h e =
    ap (λ (t : List Bytes). record row { topics = t }) (sym (append-nil row.topics))
    ∙ ap (λ (p : Bytes). record row { topics = row.topics ++ []; payload = p }) e
read_rest row [] (b ∷ bs) h e =
    ap (λ (t : List Bytes). record row { topics = t; payload = b ∷ bs })
      (sym (append-nil row.topics))
read_rest row ([] ∷ ts) payload (ne, h) e = absurd (ne refl)
read_rest row ((b ∷ bs) ∷ ts) payload (ne, h) e =
    read_rest (record row { topics = row.topics ++ ((b ∷ bs) ∷ []) }) ts payload h e
    ∙ ap (λ (t : List Bytes). record row { topics = t; payload = payload })
        (append_assoc row.topics ((b ∷ bs) ∷ []) ts)

read_address :
    (i : ℕ) (address : Bytes)
    → length address ≡ 20
    → log_field (empty_row i) (record { field = 1; wtype = 2; payload = address; varint = 0 })
      ≡ record { log_index = i; address = address; topics = []; payload = [] }
unfolding log_field
read_address i address size = ground (arith, size)

read_log :
    (i : ℕ) (address : Bytes) (ts : List Bytes) (payload : Bytes)
    → length address ≡ 20
    → All (λ t. t ≢ []) ts
    → log_fields
        (empty_row i)
        (map as_item ((opt_bytes 1 address ++ topics_list ts) ++ opt_bytes 3 payload))
      ≡ record { log_index = i; address = address; topics = ts; payload = payload }
unfolding log_fields log_field
read_log i [] ts payload size h = absurd (omega (arith, size))
read_log i (b ∷ bs) ts payload size h =
    ap (λ (row : LogRow). log_fields row (map as_item (topics_list ts ++ opt_bytes 3 payload)))
      (read_address i (b ∷ bs) size)
    ∙ read_rest (record { log_index = i; address = b ∷ bs; topics = []; payload = [] }) ts payload h
        refl

abbrev pub log_event : Log → Event
log_event l = (codes "evm.log", some (evm_log_payload l))

-- The rows of the engine's logs, numbered from `i` on.
abbrev pub rows : ℕ → List Log → List LogRow
rows i [] = []
rows i (l ∷ ls) =
    record { log_index = i; address = l.address; topics = l.topics; payload = l.payload }
    ∷ rows (i + 1) ls

not_result : bytes_eq (codes "evm.log") (codes "evm.result") ≡ false
not_result = bytes_eq_ne (codes "evm.log") (codes "evm.result") (λ e. cc)

decode_log_event :
    (out : DecodedEvents) (l : Log)
    → IsLog l
    → decode_event out (log_event l)
      ≡ ok (record out { logs = out.logs ++ rows (length out.logs) (l ∷ []) })
unfolding decode_event
decode_log_event out l h =
    rw (not_result, bytes_eq_refl (codes "evm.log"))
      (ap
          (λ (r : Result (List ProtoField)). r >>=! λ fs.
            ok (record out {
              logs = out.logs ++ (log_fields (empty_row (length out.logs)) fs ∷ []);
            }))
          (flat_items_eq (evm_log_payload l) (map as_item (log_message_fields l))
            (items_of (log_message_fields l) (log_message l) (log_fields-IsWritten l) h.fits))
        ∙ ap (λ (row : LogRow). ok (record out { logs = out.logs ++ (row ∷ []) }))
            (read_log (length out.logs) l.address l.topics l.payload h.address_size h.topics_ne))

decode_log_events :
    (out : DecodedEvents) (ls : List Log) (rest : List Event)
    → All IsLog ls
    → decode_events out (map log_event ls ++ rest)
      ≡ decode_events (record out { logs = out.logs ++ rows (length out.logs) ls }) rest
unfolding decode_events
decode_log_events out [] rest h =
    ap (λ (logs : List LogRow). decode_events (record out { logs = logs }) rest)
      (sym (append-nil out.logs))
decode_log_events out (l ∷ ls) rest (hl, h) =
    let row : List LogRow = rows (length out.logs) (l ∷ []) in
    ap (λ (r : Result DecodedEvents). r >>=! λ o. decode_events o (map log_event ls ++ rest))
      (decode_log_event out l hl)
    ∙ decode_log_events (record out { logs = out.logs ++ row }) ls rest h
    ∙ ap (λ (logs : List LogRow). decode_events (record out { logs = logs }) rest)
        (ap (λ (n : ℕ). (out.logs ++ row) ++ rows n ls) (length-append out.logs row)
          ∙ append_assoc out.logs row (rows (length out.logs + 1) ls))

-- The first field of a result, which is written even where it is 0, with the others behind it.
abbrev flag : Bool → ℕ
flag succeeded = if succeeded then 1 else 0

abbrev after_flag : ℕ → Option Bytes → List Field
after_flag gas_used address = opt_varint 2 gas_used ++ opt_address 3 address

status_bytes :
    (s : Bool) → encode_varint (encode_tag [] 1 wire_varint) (flag s) ≡ 0x08 ∷ flag s ∷ []
unfolding encode_varint encode_tag encode_varint_loop
status_bytes true = refl
status_bytes false = refl

gas_message :
    (out : Bytes) (gas_used : ℕ)
    → encode_varint_field out 2 gas_used ≡ out ++ encode_message (opt_varint 2 gas_used)
gas_message out gas_used =
    encode_varint_field-append out 2 gas_used
    ∙ ap (◌++◌ out) (
        ap (λ (b : Bytes). encode_varint_field b 2 gas_used) encode_message-nil
        ∙ add_varint [] 2 gas_used)

event_message :
    (s : Bool) (gas_used : ℕ) (address : Option Bytes)
    → evm_result_event s gas_used address
      ≡ 0x08 ∷ flag s ∷ encode_message (after_flag gas_used address)
unfolding evm_result_event
event_message s gas_used none =
    gas_message _ gas_used
    ∙ ap (λ (b : Bytes). b ++ encode_message (opt_varint 2 gas_used)) (status_bytes s)
    ∙ ap (λ (fs : List Field). 0x08 ∷ flag s ∷ encode_message fs)
        (sym (append-nil (opt_varint 2 gas_used)))
event_message s gas_used (some a) =
    encode_bytes_field-append _ 3 a
    ∙ ap (λ (b : Bytes). b ++ encode_bytes_field [] 3 a)
        (gas_message _ gas_used
          ∙ ap (λ (b : Bytes). b ++ encode_message (opt_varint 2 gas_used)) (status_bytes s))
    ∙ ap (λ (b : Bytes). 0x08 ∷ flag s ∷ b)
        (sym (encode_bytes_field-append (encode_message (opt_varint 2 gas_used)) 3 a)
          ∙ add_bytes (opt_varint 2 gas_used) 3 a)

next-flag :
    (s : Bool) (rest : Bytes)
    → Proto.next (record { input = 0x08 ∷ flag s ∷ rest; pos = 0 })
      ≡ some ((1, varint (flag s)), record { input = 0x08 ∷ flag s ∷ rest; pos = 2 })
unfolding Proto.next Proto.next_value decode_varint decode_varint_loop
next-flag true rest = ground arith
next-flag false rest = ground arith

event_items :
    (s : Bool) (fs : List Field)
    → All IsWritten fs
    → length (encode_message fs) + 2 < usize_limit
    → items (0x08 ∷ flag s ∷ encode_message fs) ≡ ok (as_item (1, varint (flag s)) ∷ map as_item fs)
unfolding items
event_items s fs h small =
    let buf : Bytes = 0x08 ∷ flag s ∷ encode_message fs in
    let start : FieldIter = record { input = buf; pos = 0 } in
    let behind : FieldIter = record { input = buf; pos = 2 } in
    items_from_step (suc (length (encode_message fs))) (as_iter start) (as_iter behind)
      (as_item (1, varint (flag s))) (map as_item fs)
      (next_agrees start behind (1, varint (flag s)) (next-flag s (encode_message fs)))
      (items_from-encode_message (suc (length (encode_message fs))) behind fs (omega (arith, small))
        h refl (omega arith))

abbrev ended : Bool → ℕ → Option Bytes → List LogRow → DecodedEvents
ended s gas_used address logs = record {
  status = s;
  gas_used = gas_used;
  contract_address = address;
  logs = logs;
}

read_result :
    (s : Bool) (gas_used : ℕ) (address : Option Bytes) (logs : List LogRow)
    → ((a : Bytes) → address ≡ some a → length a ≡ 20)
    → result_fields
        (record empty_events { logs = logs })
        (as_item (1, varint (flag s)) ∷ map as_item (after_flag gas_used address))
      ≡ ended s gas_used address logs
unfolding result_fields result_field
read_result s g (some []) logs h = absurd (omega (arith, h [] refl))
read_result true zero none logs h = refl
read_result true (suc g) none logs h = refl
read_result false zero none logs h = refl
read_result false (suc g) none logs h = refl
read_result true zero (some (a ∷ bs)) logs h = rw (h (a ∷ bs) refl) refl
read_result true (suc g) (some (a ∷ bs)) logs h = rw (h (a ∷ bs) refl) refl
read_result false zero (some (a ∷ bs)) logs h = rw (h (a ∷ bs) refl) refl
read_result false (suc g) (some (a ∷ bs)) logs h = rw (h (a ∷ bs) refl) refl

abbrev pub result_event : Bool → ℕ → Option Bytes → Event
result_event s gas_used address = (codes "evm.result", some (evm_result_event s gas_used address))

decode_result_event :
    (s : Bool) (gas_used : ℕ) (address : Option Bytes) (logs : List LogRow)
    → IsU64 gas_used
    → ((a : Bytes) → address ≡ some a → length a ≡ 20)
    → length (evm_result_event s gas_used address) < usize_limit
    → decode_event (record empty_events { logs = logs }) (result_event s gas_used address)
      ≡ ok (ended s gas_used address logs)
unfolding decode_event
decode_result_event s gas_used address logs hg ha small =
    let fs = after_flag gas_used address in
    let message = event_message s gas_used address in
    rw (bytes_eq_refl (codes "evm.result")) (
      ap
        (λ (r : Result (List ProtoField)).
          r >>=! λ f. ok (result_fields (record empty_events { logs = logs }) f))
        (flat_items_eq (evm_result_event s gas_used address) _ (
          ap items message
          ∙ event_items s fs
              (All-append IsWritten (opt_varint 2 gas_used) (opt_address 3 address)
                (opt_varint-IsWritten 2 gas_used (omega arith) hg)
                (opt_address-IsWritten 3 address (omega arith)))
              (omega (arith, small, ap length message))))
      ∙ ap ok (read_result s gas_used address logs ha))

-- The gateway reads from the events of a call what the engine put there: the success flag, the gas
-- used and the contract address of its result, and its logs in their order, numbered from 0; if the
-- gas fits 64 bits, the addresses have 20 bytes, no topic is empty and the payloads fit the memory.
pub decode_receipt_events-engine :
    (s : Bool) (gas_used : ℕ) (address : Option Bytes) (ls : List Log)
    → IsU64 gas_used
    → ((a : Bytes) → address ≡ some a → length a ≡ 20)
    → length (evm_result_event s gas_used address) < usize_limit
    → All IsLog ls
    → decode_receipt_events (map log_event ls ++ (result_event s gas_used address ∷ []))
      ≡ ok
          (record { status = s; gas_used = gas_used; contract_address = address; logs = rows 0 ls })
unfolding decode_receipt_events decode_events
decode_receipt_events-engine s gas_used address ls hg ha small h =
    decode_log_events empty_events ls (result_event s gas_used address ∷ []) h
    ∙ ap (λ (r : Result DecodedEvents). r >>=! λ o. ok o)
        (decode_result_event s gas_used address (rows 0 ls) hg ha small)
