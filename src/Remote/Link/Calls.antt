-- ===== src/Remote/Link/Calls.antt =====
-- A call over the connection beside the same call against the server on its own.
use mathlib.Core.Path.{subst}
use azpfs.Base.{
  ℕ, ◌∷◌, ◌≡◌, refl, sym, ap, ◌∙◌, false, Option, List, [], All, Permᴰ, arith, append-nil, map,
  some, IsU32, Bytes, perm_nil, rearranged, rearranged_lem, perm-rearranged,
}
use azpfs.Io.{Outcome, ok, err, panicked, blocked, OfValue}
use azpfs.Protocol.Message.{Message, request_id, set_request_id}
use azpfs.Fs.Backend.{FsBackend}
use azpfs.Protocol.DirEntry.{IsValid}
use azpfs.Protocol.Read.WellFormed.{IsWellFormed}
use azpfs.Protocol.Write.{write_message}
use azpfs.Protocol.Stream.{encode, encode_all}
use azpfs.Protocol.Stream.Pieces.{concat, off_wire, off_wire-encode_all}
use azpfs.Server.Handlers.Typed.{AnswersTyped}
use azpfs.Server.Handlers.Sendable.{handle_msg-IsWellFormed}
use azpfs.Client.Connection.About.{about, replies_to-map-some}
use azpfs.Client.Connection.Routing
use azpfs.Server.Handlers.{handle_msg}
use azpfs.Server.Handlers.Replies.{handle_msg-request_id}
use azpfs.Server.Session.{sent}
use azpfs.Client.Connection.{ClientHandler, send_msg, receive_loop, listener_of}
use azpfs.Client.Connection.Routing.{
  replies_to, send_msg-listener_of, send_msg-IsValid, receive_loop-IsValid, drop_receiver-IsValid,
}
use azpfs.Client.Calls.{Call}
use azpfs.Remote.{delivered, perform}
use azpfs.Remote.Link.{Link, finished, answered, handle_all, call_over}

-- A rearrangement of replies on their way.
abbrev pub Rearranges : (List Message → List Message) → Type 0
Rearranges order = (ms : List Message) → Permᴰ ms (order ms)

-- The bytes that the stream brings encode whole messages, and those about a request's id are the replies to
-- it, all of them and in any order.
abbrev pub Brings : (ℕ → List Message → List Bytes) → Type 0
Brings stream =
    (id : ℕ) (ms : List Message)
    → All (λ m. request_id m ≡ id) ms
    → All IsWellFormed ms
    → (sent_on : List Message) × All IsWellFormed sent_on
      × (concat (stream id ms) ≡ encode_all sent_on [])
      × Permᴰ ms (about id sent_on)

-- The states of a file system that answers within the Rust types, with error texts shorter than 64 KiB and
-- names of at most 255 bytes.
pub record Bounded (fs : FsBackend) : Type 1 where
  pub IsBounded : fs.State → Type 0
  pub typed : (s : fs.State) → IsBounded s → AnswersTyped fs s
  pub names :
      (inode : ℕ) (s : fs.State) → IsBounded s → OfValue (All IsValid) (fs.read_dir inode s).0
  pub keeps :
      (m : Message) (s : fs.State) → IsWellFormed m → IsBounded s → IsBounded (handle_msg fs m s).1

pub request_id-set_request_id : (id : ℕ) (m : Message) → request_id (set_request_id id m) ≡ id
unfolding request_id set_request_id
request_id-set_request_id id m = ground arith

pub sent-All :
    (P : Message → Type 0) (r : Outcome (List Message)) → OfValue (All P) r → All P (sent r)
unfolding sent
sent-All P (ok ms) h = h
sent-All P (err e) h = tt
sent-All P panicked h = tt
sent-All P blocked h = tt

delivered-sent :
    (order : List Message → List Message) (r : Outcome (List Message))
    → Rearranges order
    → delivered order r ≡ record { messages = order (sent r); closes = false }
unfolding sent
delivered-sent order (ok ms) h = refl
delivered-sent order (err e) h = rw (perm_nil (order []) (h []))
delivered-sent order panicked h = rw (perm_nil (order []) (h []))
delivered-sent order blocked h = rw (perm_nil (order []) (h []))

finished-IsValid {ℓ} :
    {A : Type ℓ} (r : Outcome A) (c : ℕ) (h : ClientHandler)
    → Routing.IsValid h
    → Routing.IsValid (finished r c h)
unfolding finished
finished-IsValid (ok a) c h v = drop_receiver-IsValid c h v
finished-IsValid (err e) c h v = drop_receiver-IsValid c h v
finished-IsValid panicked c h v = drop_receiver-IsValid c h v
finished-IsValid blocked c h v = v

-- A listener whose messages are a rearrangement of the replies to a request gets what the call gets
-- on its own, by some order of arrival.
pub reply-rearranged {ℓ} :
    {A : Type ℓ} (fs : FsBackend) (call : Call A) (id : ℕ) (s : fs.State) (arrived : List Message)
    → Permᴰ (sent (handle_msg fs (set_request_id id call.request) s).0) arrived
    → (order : List Message → List Message) × Rearranges order
      × (call.reply (record { messages = arrived; closes = false })
          ≡ (perform fs order id call s).0)
unfolding perform
reply-rearranged fs call id s arrived p =
    let r = (handle_msg fs (set_request_id id call.request) s).0 in
    let arrives : Rearranges (rearranged p) = perm-rearranged p in
    (
      rearranged p,
      arrives,
      ap (λ ms. call.reply (record { messages = ms; closes = false })) (sym (rearranged_lem p))
          ∙ ap call.reply (sym (delivered-sent (rearranged p) r arrives)),
    )

module _ {fs : FsBackend} (bounded : Bounded fs) (stream : ℕ → List Message → List Bytes)
    (brings : Brings stream) where
  -- No reader has begun a message, and the handler and the file system are in states that calls leave.
  abbrev pub IsFine : Link fs.State → Type 0
  IsFine t =
      Routing.IsValid t.handler × (t.unread ≡ []) × (t.arrived ≡ []) × bounded.IsBounded t.server

  -- The request of a call is one that can be sent, under any id.
  abbrev pub IsSendable {ℓ} : {A : Type ℓ} → Call A → Type 0
  IsSendable call = (id : ℕ) → IsU32 id → IsWellFormed (set_request_id id call.request)

  -- What is sent is what the server's reader yields.
  off_wire-one : (m : Message) → IsWellFormed m → off_wire [] (encode m [] ∷ []) ≡ (m ∷ [], [])
  unfolding encode encode_all
  off_wire-one m h =
      off_wire-encode_all (m ∷ []) (encode m [] ∷ []) (h, tt) (append-nil (write_message m))

  -- What a call comes to, by what comes off the wire on both sides.
  call_over_value {ℓ} :
      {A : Type ℓ} (call : Call A) (t : Link fs.State) (m : Message) (sent_on : List Message)
      → m ≡ set_request_id t.handler.next_id call.request
      → off_wire t.unread (encode m [] ∷ []) ≡ (m ∷ [], [])
      → off_wire t.arrived (stream t.handler.next_id (sent (handle_msg fs m t.server).0))
        ≡ (sent_on, [])
      → call_over fs stream call t ≡ (
          let h = receive_loop (map some sent_on) (send_msg (ok tt) call.request t.handler).1 in
          let r = call.reply (listener_of t.handler.opened h) in
          (
            r,
            record {
              handler = finished r t.handler.opened h;
              server = (handle_msg fs m t.server).1;
              unread = [];
              arrived = [];
            },
          ))
  unfolding call_over answered send_msg handle_all
  call_over_value call t m sent_on e requests replies =
      rw (call_over, ← e, requests, append-nil, replies)

  -- A call over a connection gives what it gives against the server on its own, by some order of the
  -- replies, and does the same on the server.
  pub call_over-perform {ℓ} :
      {A : Type ℓ} (call : Call A) (t : Link fs.State)
      → IsSendable call
      → IsFine t
      → (order : List Message → List Message) × Rearranges order
        × ((call_over fs stream call t).0 ≡ (perform fs order t.handler.next_id call t.server).0)
        × ((call_over fs stream call t).1.server
            ≡ (perform fs order t.handler.next_id call t.server).1)
        × IsFine (call_over fs stream call t).1
  unfolding perform send_msg
  call_over-perform call t fits (v, unread, arrived, bound) =
      let id = t.handler.next_id in
      let m = set_request_id id call.request in
      let whole : IsWellFormed m = fits id v.next_id-IsU32 in
      let same_id : request_id m ≡ id = request_id-set_request_id id call.request in
      let r = (handle_msg fs m t.server).0 in
      let ids : OfValue (All λ x. request_id x ≡ id) r =
        subst (λ k. OfValue (All λ x. request_id x ≡ k) r) same_id
          (handle_msg-request_id fs m t.server) in
      let formed : OfValue (All IsWellFormed) r =
        handle_msg-IsWellFormed fs t.server (bounded.typed t.server bound) m
          (subst IsU32 (sym same_id) v.next_id-IsU32) in
      let (sent_on, all_formed, bytes, perm) =
        brings id (sent r) (sent-All (λ x. request_id x ≡ id) r ids)
          (sent-All IsWellFormed r formed) in
      let requests : off_wire t.unread (encode m [] ∷ []) ≡ (m ∷ [], []) =
        rw unread (off_wire-one m whole) in
      let replies : off_wire t.arrived (stream id (sent r)) ≡ (sent_on, []) =
        rw arrived (off_wire-encode_all sent_on (stream id (sent r)) all_formed bytes) in
      let ms : List (Option Message) = map some sent_on in
      let got = send_msg-listener_of call.request t.handler ms v in
      let (order, arrives, same) = reply-rearranged fs call id t.server (about id sent_on) perm in
      let value = call_over_value call t m sent_on refl requests replies in
      (
        order,
        arrives,
        ap (λ q. q.0) value
            ∙ ap call.reply (
                got
                ∙ ap (λ l. record { messages = l; closes = false })
                    (replies_to-map-some id sent_on))
            ∙ same,
        ap (λ q. q.1.server) value,
        subst IsFine (sym (ap (λ q. q.1) value)) (
          finished-IsValid _ t.handler.opened _
              (receive_loop-IsValid ms _ (send_msg-IsValid (ok tt) call.request t.handler v)),
          refl,
          refl,
          bounded.keeps m t.server whole bound,
        ),
      )
