-- ===== src/Events/Proto/RoundTrip.antt =====
-- Decoding what the conversion of internal/events/from_proto.go made.
use solana_dashboard.Common.{◌≡◌, sym, ap, ◌∙◌, subst, some, arith}
use solana_dashboard.Result.{Result, ok, ◌>>=◌, ok_steps}
use solana_dashboard.Events.{
  RawMessage, Envelope, Payload, pumpfun_trade, pumpfun_create, pumpfun_migrate, pump_amm_swap,
  pump_amm_create_pool, pump_amm_liquidity, unknown,
}
use solana_dashboard.Events.Decoder.{Codec, decode_payload}
use solana_dashboard.Ingest.{envelope_with_payload}
use solana_dashboard.Events.Proto.Message.{
  protocol_pumpfun, protocol_pumpamm, event_type_trade, event_type_create, event_type_migrate,
  event_type_swap, event_type_create_pool, event_type_deposit, event_type_withdraw, Protocol,
  EventType, EventMessage, PayloadMessage, no_payload, pumpfun_trade_message,
  pumpfun_create_message, pumpfun_migrate_message, pumpamm_swap_message,
  pumpamm_create_pool_message, pumpamm_deposit_message, pumpamm_withdraw_message,
}
use solana_dashboard.Events.Proto.{
  DecodedEnvelope, payload_from_proto, metadata, envelope_metadata_from_proto,
  decoded_envelope_from_proto, envelope_from_proto, decode_envelope, instruction_path_from_proto,
  protocol_from_proto, event_type_from_proto,
}

ok_inj : {A : Type 0} {a b : A} → ok a ≡ ok b → a ≡ b
ok_inj h = ground arith

-- json.Unmarshal, at the type of a payload, reads the payload in the bytes.
abbrev pub ReadsBack : Codec → Payload → RawMessage → Type 0
ReadsBack codec (pumpfun_trade p) bytes = codec.unmarshal_trade bytes ≡ ok p
ReadsBack codec (pumpfun_create p) bytes = codec.unmarshal_create bytes ≡ ok p
ReadsBack codec (pumpfun_migrate p) bytes = codec.unmarshal_migrate bytes ≡ ok p
ReadsBack codec (pump_amm_swap p) bytes = codec.unmarshal_swap bytes ≡ ok p
ReadsBack codec (pump_amm_create_pool p) bytes = codec.unmarshal_create_pool bytes ≡ ok p
ReadsBack codec (pump_amm_liquidity p) bytes = codec.unmarshal_liquidity bytes ≡ ok p
ReadsBack codec unknown bytes = Unit

-- The message's protocol and type are those of its payload.
abbrev pub IsTagged : Protocol → EventType → PayloadMessage → Type 0
IsTagged protocol type no_payload = Unit
IsTagged protocol type (pumpfun_trade_message p) =
    (protocol ≡ protocol_pumpfun) × (type ≡ event_type_trade)
IsTagged protocol type (pumpfun_create_message p) =
    (protocol ≡ protocol_pumpfun) × (type ≡ event_type_create)
IsTagged protocol type (pumpfun_migrate_message p) =
    (protocol ≡ protocol_pumpfun) × (type ≡ event_type_migrate)
IsTagged protocol type (pumpamm_swap_message p) =
    (protocol ≡ protocol_pumpamm) × (type ≡ event_type_swap)
IsTagged protocol type (pumpamm_create_pool_message p) =
    (protocol ≡ protocol_pumpamm) × (type ≡ event_type_create_pool)
IsTagged protocol type (pumpamm_deposit_message p) =
    (protocol ≡ protocol_pumpamm) × (type ≡ event_type_deposit)
IsTagged protocol type (pumpamm_withdraw_message p) =
    (protocol ≡ protocol_pumpamm) × (type ≡ event_type_withdraw)

module _ (codec : Codec) where
  -- The payload that is read at the tags and the bytes of an encoded payload.
  tagged_lem :
      (message : PayloadMessage) (protocol : Protocol) (type : EventType) (env : Envelope)
      {p : Payload} (bytes : RawMessage)
      → IsTagged protocol type message
      → payload_from_proto message ≡ ok p
      → ReadsBack codec p bytes
      → decode_payload codec (record env {
        protocol = protocol_from_proto protocol;
        event_type = event_type_from_proto type;
        payload = bytes;
      })
        ≡ ok p
  unfolding payload_from_proto decode_payload protocol_from_proto event_type_from_proto
  tagged_lem no_payload protocol type env bytes tags made back = ground arith
  tagged_lem (pumpfun_trade_message m) protocol type env {p} bytes (t, u) made back =
      rw (t, u, subst (λ q. ReadsBack codec q bytes) (sym (ok_inj made)) back) made
  tagged_lem (pumpfun_create_message m) protocol type env {p} bytes (t, u) made back =
      rw (t, u, subst (λ q. ReadsBack codec q bytes) (sym (ok_inj made)) back) made
  tagged_lem (pumpfun_migrate_message m) protocol type env {p} bytes (t, u) made back =
      rw (t, u, subst (λ q. ReadsBack codec q bytes) (sym (ok_inj made)) back) made
  tagged_lem (pumpamm_swap_message m) protocol type env {p} bytes (t, u) made back =
      rw (t, u, subst (λ q. ReadsBack codec q bytes) (sym (ok_inj made)) back) made
  tagged_lem (pumpamm_create_pool_message m) protocol type env {p} bytes (t, u) made back =
      rw (t, u, subst (λ q. ReadsBack codec q bytes) (sym (ok_inj made)) back) made
  tagged_lem (pumpamm_deposit_message m) protocol type env {p} bytes (t, u) made back =
      rw (t, u, subst (λ q. ReadsBack codec q bytes) (sym (ok_inj made)) back) made
  tagged_lem (pumpamm_withdraw_message m) protocol type env {p} bytes (t, u) made back =
      rw (t, u, subst (λ q. ReadsBack codec q bytes) (sym (ok_inj made)) back) made

  -- A message whose protocol and type are those of its payload, once it is converted into an envelope
  -- with its payload as JSON, decodes to that envelope and to the payload that was converted, if
  -- json.Unmarshal reads that payload in what json.Marshal writes of it.
  pub envelope_from_proto-decode_envelope :
      (encode : Payload → Result RawMessage) (event : EventMessage) {env : Envelope}
      → ((p : Payload) (bytes : RawMessage)
          → payload_from_proto event.payload ≡ ok p
          → encode p ≡ ok bytes
          → ReadsBack codec p bytes)
      → IsTagged event.protocol event.event_type event.payload
      → envelope_from_proto encode (some event) ≡ ok env
      → (p : Payload) × (payload_from_proto event.payload ≡ ok p)
        × (decode_envelope codec env ≡ ok (record { envelope = env; payload = p }))
  unfolding envelope_from_proto decoded_envelope_from_proto envelope_metadata_from_proto
      envelope_with_payload decode_envelope metadata
  envelope_from_proto-decode_envelope encode event {env} json tags h =
      let (decoded, made, written) = ok_steps (decoded_envelope_from_proto (some event)) _ h in
      let (base, meta, rest) = ok_steps (envelope_metadata_from_proto (some event)) _ made in
      let (p, payload, whole) = ok_steps (payload_from_proto event.payload) _ rest in
      let (path, _, filled) =
        ok_steps (instruction_path_from_proto event.instruction_path) _ meta in
      let pair : record { envelope = metadata event path; payload = p } ≡ decoded =
        ap (λ b. record { envelope = b; payload = p }) (ok_inj filled) ∙ ok_inj whole in
      let (bytes, encoded, last) = ok_steps (encode p) _ (
        ap (λ (d : DecodedEnvelope). envelope_with_payload encode d.envelope d.payload) pair
        ∙ written) in
      (
        p,
        payload,
        subst (λ v. decode_envelope codec v ≡ ok (record { envelope = v; payload = p }))
            (ok_inj last)
            (ap
              (λ r. r >>= λ q. ok (record {
                envelope = record (metadata event path) { payload = bytes };
                payload = q;
              }))
              (tagged_lem event.payload event.protocol event.event_type (metadata event path) bytes
                tags payload (json p bytes payload encoded))),
      )
