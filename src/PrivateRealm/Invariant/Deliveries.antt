-- ===== src/PrivateRealm/Invariant/Deliveries.antt =====
-- src/private-realm/store.js: reading and delivering keep each delivery with its message.
use cairnstone_v.Prelude.{
  ℕ, zero, suc, String, ◌≡◌, ◌≢◌, refl, subst, none, ◌==◌, string_eq, pair_eq, Bool-cases, inl, inr,
  List, [], ◌∷◌,
}
use cairnstone_v.Prelude.Dict.{Dict, lookup, AllEntries, AllEntries-insert}
use cairnstone_v.PrivateRealm.Check.{pass, pass-injective, bind-eq-pass}
use cairnstone_v.PrivateRealm.State.{Message, Delivery}
use cairnstone_v.PrivateRealm.Send.{deliver, new_delivery}
use cairnstone_v.PrivateRealm.Mailbox.{Reading, read_entries}
use cairnstone_v.PrivateRealm.Invariant.{HasMessage}

abbrev pub MailKept : Dict String Message → Reading → Type 0
MailKept messages r = AllEntries (HasMessage messages) r.deliveries

-- Reading stamps deliveries and moves none to another message.
pub read_entries-mail :
    (now : ℕ) (messages : Dict String Message) (inbox : String) (room : ℕ)
    (ds : Dict (String × String) Delivery) (r : Reading)
    → read_entries now messages inbox room ds ≡ pass r
    → AllEntries (HasMessage messages) ds
    → AllEntries (HasMessage messages) r.deliveries
unfolding read_entries
read_entries-mail now messages inbox room [] r h a = subst (MailKept messages) (pass-injective h) tt
read_entries-mail now messages inbox zero ((k, d) ∷ ds) r h a =
    subst (MailKept messages) (pass-injective h) a
read_entries-mail now messages inbox (suc room) ((k, d) ∷ ds) r h (q, a) =
    elim (Bool-cases (d.inbox_id == inbox)) [
      | inl t ↦
          let (m, e1, h1) = bind-eq-pass _ _ (rw (t, read_entries) at h) in
          let (rest, e2, h2) = bind-eq-pass _ _ h1 in
          subst (MailKept messages) (pass-injective h2) (
            record { message = q.message; inbox = q.inbox; stored = q.stored },
            read_entries-mail now messages inbox room ds rest e2 a,
          )
      | inr f ↦
          let (rest, e2, h2) = bind-eq-pass _ _ (rw (f, read_entries) at h) in
          subst (MailKept messages) (pass-injective h2)
            (q, read_entries-mail now messages inbox (suc room) ds rest e2 a)
    ]

pub deliver-mail :
    (now : ℕ) (messages : Dict String Message) (id : String) (ts : List String)
    (ds : Dict (String × String) Delivery)
    → lookup id messages ≢ none
    → AllEntries (HasMessage messages) ds
    → AllEntries (HasMessage messages) (deliver now id ts ds)
unfolding deliver
deliver-mail now messages id [] ds stored a = a
deliver-mail now messages id (t ∷ ts) ds stored a = deliver-mail now messages id ts _ stored (
    AllEntries-insert (HasMessage messages) (id, t) (new_delivery now id t) ds
      (record { message = refl; inbox = refl; stored = stored }) a)
