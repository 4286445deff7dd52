-- ===== src/PrivateRealm/Run/History.antt =====
-- What a Home never loses: a revocation, a message, the stamps of a delivery.
use cairnstone_v.Prelude.{
  ℕ, zero, suc, String, ◌≡◌, refl, ◌∙◌, subst, Option, none, some, Bool, true, false, not, ◌==◌,
  string_eq, pair_eq, arith, eq_iff, pair_eqb_iff, Option-cases, Bool-cases, inl, inr, List, [],
  ◌∷◌,
}
use cairnstone_v.Prelude.Dict.{Dict, lookup, lookup-insert, AllEntries-lookup}
use cairnstone_v.PrivateRealm.Check.{pass, bind-eq-pass, pass-injective}
use cairnstone_v.PrivateRealm.State.{revoked, Message, Delivery, Home}
use cairnstone_v.PrivateRealm.Authority.{is_active}
use cairnstone_v.PrivateRealm.Attach.{attach, new_connection}
use cairnstone_v.PrivateRealm.Connections.{with_role, with_revoked}
use cairnstone_v.PrivateRealm.Inboxes.{with_inbox}
use cairnstone_v.PrivateRealm.Grants.{with_grant}
use cairnstone_v.PrivateRealm.Send.{with_message, deliver, new_delivery}
use cairnstone_v.PrivateRealm.Mailbox.{Reading, read_entries, with_ack, stamp}
use cairnstone_v.PrivateRealm.Steps.{HomeStep, role_change, revocation, delivery, reading, acking}
use cairnstone_v.PrivateRealm.Invariant.{IsSound, HasMessage}
use cairnstone_v.PrivateRealm.Run.Evolution.{Evolved, same, stepped, joined}

abbrev pub is_revoked : String → Home → Bool
is_revoked c home = elim (lookup c home.connections) [
  | none ↦ false
  | some k ↦ not (is_active k.status)
]

HomeStep-is_revoked :
    (c : String) (h : Home) (now : ℕ) (h' : Home)
    → HomeStep now h h'
    → is_revoked c h ≡ true
    → is_revoked c h' ≡ true
unfolding with_role with_revoked with_inbox with_grant with_message with_ack
HomeStep-is_revoked c h now _ (role_change id k role at act last) p =
    ground (arith, lookup-insert id c (record k { role = role }) h.connections, eq_iff id c)
HomeStep-is_revoked c h now _ (revocation id k at act) p = ground (
  arith,
  lookup-insert id c (record k { status = revoked; revoked_at = some now }) h.connections,
  eq_iff id c,
)
HomeStep-is_revoked c h now _ _ p = p

pub Evolved-is_revoked :
    (c : String) (h h' : Home)
    → IsSound h
    → Evolved h h'
    → is_revoked c h ≡ true
    → is_revoked c h' ≡ true
unfolding attach
Evolved-is_revoked c h _ ok same p = p
Evolved-is_revoked c h _ ok (stepped now st) p = HomeStep-is_revoked c h now _ st p
Evolved-is_revoked c h _ ok (joined now scope role n) p = ground (
  arith,
  lookup-insert scope.connection_id c (new_connection now scope role) h.connections,
  eq_iff scope.connection_id c,
)

abbrev pub HoldsMessage : String → Message → Home → Type 0
HoldsMessage id m home = lookup id home.messages ≡ some m

HomeStep-HoldsMessage :
    (id : String) (m : Message) (h : Home) (now : ℕ) (h' : Home)
    → HomeStep now h h'
    → HoldsMessage id m h
    → HoldsMessage id m h'
unfolding with_role with_revoked with_inbox with_grant with_message with_ack
HomeStep-HoldsMessage id m h now _ (delivery x ts n opened) p =
    ground (arith, lookup-insert x.message_id id x h.messages, eq_iff x.message_id id)
HomeStep-HoldsMessage id m h now _ _ p = p

pub Evolved-HoldsMessage :
    (id : String) (m : Message) (h h' : Home)
    → IsSound h
    → Evolved h h'
    → HoldsMessage id m h
    → HoldsMessage id m h'
unfolding attach
Evolved-HoldsMessage id m h _ ok (stepped now st) p = HomeStep-HoldsMessage id m h now _ st p
Evolved-HoldsMessage id m h _ ok _ p = p

abbrev pub read_of : Option Delivery → Option ℕ
read_of none = none
read_of (some d) = d.read_at

abbrev pub acked_of : Option Delivery → Option ℕ
acked_of none = none
acked_of (some d) = d.acked_at

-- The stamps of a delivery that are set, both or either.
pub record Keeps (before after : Option Delivery) : Type 0 where
  pub read : (t : ℕ) → read_of before ≡ some t → read_of after ≡ some t
  pub acked : (t : ℕ) → acked_of before ≡ some t → acked_of after ≡ some t

pub Keeps-refl : (o : Option Delivery) → Keeps o o
Keeps-refl o = record { read = λ t e. e; acked = λ t e. e }

pub Keeps-trans : {a b c : Option Delivery} → Keeps a b → Keeps b c → Keeps a c
Keeps-trans p q = record {
  read = λ t e. q.read t (p.read t e);
  acked = λ t e. q.acked t (p.acked t e);
}

lookup-deliver :
    (now : ℕ) (id : String) (ts : List String) (ds : Dict (String × String) Delivery)
    (key : String × String)
    → (id == key.0) ≡ false
    → lookup key (deliver now id ts ds) ≡ lookup key ds
unfolding deliver
lookup-deliver now id [] ds key n = refl
lookup-deliver now id (t ∷ ts) ds key n =
    lookup-deliver now id ts _ key n
    ∙ ground (arith, lookup-insert (id, t) key (new_delivery now id t) ds)

read_entries-Keeps :
    (now : ℕ) (messages : Dict String Message) (inbox : String) (room : ℕ)
    (ds : Dict (String × String) Delivery) (r : Reading) (key : String × String)
    → read_entries now messages inbox room ds ≡ pass r
    → Keeps (lookup key ds) (lookup key r.deliveries)
unfolding read_entries lookup
read_entries-Keeps now messages inbox room [] r key h =
    subst (λ (x : Reading). Keeps none (lookup key x.deliveries)) (pass-injective h)
      (Keeps-refl none)
read_entries-Keeps now messages inbox zero ((k, d) ∷ ds) r key h =
    subst (λ (x : Reading). Keeps (lookup key ((k, d) ∷ ds)) (lookup key x.deliveries))
      (pass-injective h) (Keeps-refl _)
read_entries-Keeps now messages inbox (suc room) ((k, d) ∷ ds) r key h =
    elim (Bool-cases (d.inbox_id == inbox)) [
      | inl t ↦
          let (m, e1, h1) = bind-eq-pass _ _ (rw (t, read_entries) at h) in
          let (rest, e2, h2) = bind-eq-pass _ _ h1 in
          let ih = read_entries-Keeps now messages inbox room ds rest key e2 in
          subst (λ (x : Reading). Keeps (lookup key ((k, d) ∷ ds)) (lookup key x.deliveries))
            (pass-injective h2)
            (record {
              read = λ t e. ground (arith, ih.read t);
              acked = λ t e. ground (arith, ih.acked t);
            })
      | inr f ↦
          let (rest, e2, h2) = bind-eq-pass _ _ (rw (f, read_entries) at h) in
          let ih = read_entries-Keeps now messages inbox (suc room) ds rest key e2 in
          subst (λ (x : Reading). Keeps (lookup key ((k, d) ∷ ds)) (lookup key x.deliveries))
            (pass-injective h2)
            (record {
              read = λ t e. ground (arith, ih.read t);
              acked = λ t e. ground (arith, ih.acked t);
            })
    ]

HomeStep-Keeps :
    (key : String × String) (h : Home) (now : ℕ) (h' : Home)
    → IsSound h
    → HomeStep now h h'
    → Keeps (lookup key h.deliveries) (lookup key h'.deliveries)
unfolding with_role with_revoked with_inbox with_grant with_message with_ack
HomeStep-Keeps key h now _ ok (delivery x ts n opened) =
    elim (Option-cases (lookup key h.deliveries)) [
      | inl absent ↦ rw absent (record { read = λ t e. cc; acked = λ t e. cc })
      | inr (d, at) ↦
          let has = AllEntries-lookup (HasMessage h.messages) key d h.deliveries at ok.mail in
          rw
            (lookup-deliver now x.message_id ts h.deliveries key
              (ground (arith, has.stored, has.message, eq_iff x.message_id key.0)))
            (Keeps-refl _)
    ]
HomeStep-Keeps key h now _ ok (reading inbox room r e) =
    read_entries-Keeps now h.messages inbox room h.deliveries r key e
HomeStep-Keeps key h now _ ok (acking k d at n) = record {
  read = λ t e. ground (
    arith,
    lookup-insert k key (record d { read_at = stamp now d.read_at; acked_at = some now })
        h.deliveries,
    pair_eqb_iff k key,
  );
  acked = λ t e. ground (
    arith,
    lookup-insert k key (record d { read_at = stamp now d.read_at; acked_at = some now })
        h.deliveries,
    pair_eqb_iff k key,
  );
}
HomeStep-Keeps key h now _ ok _ = Keeps-refl _

pub Evolved-Keeps :
    (key : String × String) (h h' : Home)
    → IsSound h
    → Evolved h h'
    → Keeps (lookup key h.deliveries) (lookup key h'.deliveries)
unfolding attach
Evolved-Keeps key h _ ok (stepped now st) = HomeStep-Keeps key h now _ ok st
Evolved-Keeps key h _ ok _ = Keeps-refl _
