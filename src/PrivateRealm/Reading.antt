-- ===== src/PrivateRealm/Reading.antt =====
-- src/private-realm/store.js, `readInbox`: what a mailbox shows, and how much of it.
use cairnstone_v.Prelude.{
  ℕ, zero, suc, String, ◌≡◌, ◌≢◌, refl, sym, ◌∙◌, ap, min, subst, Option, none, some, Bool, true,
  string_eq, pair_eq, ◌==◌, arith, eq_iff, pair_eqb_iff, Bool-cases, inl, inr, List, [], ◌∷◌,
  length, All, map, take, keep, some-injective,
}
use cairnstone_v.Prelude.Dict.{Dict, lookup, values, tally, AllEntries, lookup-insert_self}
use cairnstone_v.Prelude.Value.{Value, str, as_string}
use cairnstone_v.PrivateRealm.Check.{HomeScope, pass, bind-eq-pass, pass-injective}
use cairnstone_v.PrivateRealm.Scope.{
  ScopeArg, SelectorArg, assert_home_scope, assert_selector, matching, ibx_pattern,
}
use cairnstone_v.PrivateRealm.State.{Capability, Inbox, Message, Delivery, Home, Store}
use cairnstone_v.PrivateRealm.Authority.{ok, Ctx, check_capability, audit, save}
use cairnstone_v.PrivateRealm.Mailbox.{
  Reading, Letter, read_entries, read_inbox, check_read_inbox, limit_of,
}
use cairnstone_v.PrivateRealm.Marking.{
  IsKeyed, IsMarked, stamped, map-read_entries, read_entries-IsMarked,
}
use cairnstone_v.PrivateRealm.Invariant.{IsWellFormed, HasMessage}
use cairnstone_v.PrivateRealm.Run.Forever.{settle-eq-ok}
use cairnstone_v.PrivateRealm.Steps.Resolved.{
  Resolved, Permitted, authorize-Resolved, check_capability-Permitted,
}

-- A letter shows a stored message of the Home that was delivered to the inbox, and is marked read.
pub record IsLetter (home : Home) (inbox : String) (l : Letter) : Type 0 where
  pub message : Message
  pub stored : lookup l.message_id home.messages ≡ some message
  pub body : l.body ≡ message.body_text
  pub sender : l.sender_inbox_id ≡ message.sender_inbox_id
  pub delivered : lookup (l.message_id, inbox) home.deliveries ≢ none
  pub read : l.read_at ≢ none

lookup-head :
    (k : String × String) (d : Delivery) (ds : Dict (String × String) Delivery)
    → lookup k ((k, d) ∷ ds) ≢ none
unfolding lookup
lookup-head k d ds = ground (arith, pair_eqb_iff k k)

lookup-tail :
    (k : String × String) (d : Delivery) (ds : Dict (String × String) Delivery)
    (j : String × String)
    → lookup j ds ≢ none
    → lookup j ((k, d) ∷ ds) ≢ none
unfolding lookup
lookup-tail k d ds j n = ground arith

key_eq :
    (k : String × String) (d : Delivery) (inbox : String)
    → d.message_id ≡ k.0
    → d.inbox_id ≡ k.1
    → (d.inbox_id == inbox) ≡ true
    → k ≡ (d.message_id, inbox)
key_eq k d inbox p q t = ground (arith, eq_iff d.inbox_id inbox)

delivered_key :
    {messages : Dict String Message} {k : String × String} {d : Delivery} (inbox : String)
    (ds : Dict (String × String) Delivery)
    → HasMessage messages k d
    → (d.inbox_id == inbox) ≡ true
    → lookup k ds ≢ none
    → lookup (d.message_id, inbox) ds ≢ none
delivered_key {k} {d} inbox ds has t n =
    subst (λ j. lookup j ds ≢ none) (key_eq k d inbox has.message has.inbox t) n

module _ (now : ℕ) (home : Home) (inbox : String) (keyed : IsKeyed home.messages) where
  read_entries-IsLetter :
      (room : ℕ) (ds : Dict (String × String) Delivery) (r : Reading)
      → AllEntries (HasMessage home.messages) ds
      → ((k : String × String) → lookup k ds ≢ none → lookup k home.deliveries ≢ none)
      → read_entries now home.messages inbox room ds ≡ pass r
      → All (IsLetter home inbox) r.letters
  unfolding read_entries
  read_entries-IsLetter room [] r a sub h =
      subst (λ (x : Reading). All (IsLetter home inbox) x.letters) (pass-injective h) tt
  read_entries-IsLetter zero ((k, d) ∷ ds) r a sub h =
      subst (λ (x : Reading). All (IsLetter home inbox) x.letters) (pass-injective h) tt
  read_entries-IsLetter (suc room) ((k, d) ∷ ds) r (has, a) sub h =
      elim (Bool-cases (d.inbox_id == inbox)) [
        | inl t ↦
            let (m, e1, h1) = bind-eq-pass _ _ (rw (t, read_entries) at h) in
            let (rest, e2, h2) = bind-eq-pass _ _ h1 in
            let stored : lookup d.message_id home.messages ≡ some m = ground arith in
            subst (λ (x : Reading). All (IsLetter home inbox) x.letters) (pass-injective h2)
              (
                record {
                  message = m;
                  stored = rw (keyed d.message_id m stored) stored;
                  body = refl;
                  sender = refl;
                  delivered =
                      rw (keyed d.message_id m stored)
                        (delivered_key inbox home.deliveries has t (sub k (lookup-head k d ds)));
                  read = stamped now d.read_at;
                },
                read_entries-IsLetter room ds rest a (λ j n. sub j (lookup-tail k d ds j n)) e2,
              )
        | inr f ↦
            let (rest, e2, h2) = bind-eq-pass _ _ (rw (f, read_entries) at h) in
            subst (λ (x : Reading). All (IsLetter home inbox) x.letters) (pass-injective h2)
              (read_entries-IsLetter (suc room) ds rest a (λ j n. sub j (lookup-tail k d ds j n))
                e2)
      ]

  -- As many letters as deliveries to the inbox, up to the room.
  length-read_entries :
      (room : ℕ) (ds : Dict (String × String) Delivery) (r : Reading)
      → read_entries now home.messages inbox room ds ≡ pass r
      → length r.letters ≡ min room (tally (λ d. d.inbox_id == inbox) ds)
  unfolding read_entries
  length-read_entries room [] r h =
      ap (λ (x : Reading). length x.letters) (sym (pass-injective h)) ∙ omega arith
  length-read_entries zero ((k, d) ∷ ds) r h =
      ap (λ (x : Reading). length x.letters) (sym (pass-injective h)) ∙ omega arith
  length-read_entries (suc room) ((k, d) ∷ ds) r h = elim (Bool-cases (d.inbox_id == inbox)) [
    | inl t ↦
        let (m, e1, h1) = bind-eq-pass _ _ (rw (t, read_entries) at h) in
        let (rest, e2, h2) = bind-eq-pass _ _ h1 in
        ap (λ (x : Reading). length x.letters) (sym (pass-injective h2))
        ∙ ground (arith, length-read_entries room ds rest e2)
    | inr f ↦
        let (rest, e2, h2) = bind-eq-pass _ _ (rw (f, read_entries) at h) in
        ap (λ (x : Reading). length x.letters) (sym (pass-injective h2))
        ∙ ground (arith, length-read_entries (suc room) ds rest e2)
  ]

matching-eq-some :
    (p : String → Bool) (v : Value) (id : String) → matching p v ≡ some id → as_string v ≡ some id
matching-eq-some p v id h = ground arith

-- What a successful read of an inbox gives: the Home in which the connection of the scope stands, with
-- the inbox that was asked for and a grant to read it; the letters; and the store after.
pub record IsReading (scope_in : ScopeArg) (selector_in : SelectorArg) (s s' : Store)
    (inbox limit : Value) (ls : List Letter) : Type 0 where
  pub scope : HomeScope
  pub selector : Option String
  pub ctx : Ctx
  pub accepted : assert_home_scope scope_in ≡ pass scope
  pub selector_accepted : assert_selector selector_in ≡ pass selector
  pub resolved : Resolved scope selector s ctx
  pub inbox_id : String
  pub named : as_string inbox ≡ some inbox_id
  pub stored_inbox : Inbox
  pub permitted : Permitted ctx Capability.read inbox_id stored_inbox
  pub letters : All (IsLetter ctx.home inbox_id) ls
  pub shown :
      map Letter.message_id ls
      ≡ take (limit_of limit) (
          map Delivery.message_id (keep (λ d. d.inbox_id == inbox_id) (values ctx.home.deliveries)))
  pub count :
      length ls ≡ min (limit_of limit) (tally (λ d. d.inbox_id == inbox_id) ctx.home.deliveries)
  pub after : Home
  pub written : lookup resolved.id s'.homes ≡ some after
  pub marked : All (IsMarked after.deliveries inbox_id) ls

read-Permitted :
    (ctx : Ctx) (inbox : Value) (id : String) (i : Inbox)
    → check_capability ctx inbox (str "read") "read_inbox" ≡ pass (id, i)
    → (as_string inbox ≡ some id) × Permitted ctx Capability.read id i
read-Permitted ctx inbox id i h =
    let (c, e, m, p) = check_capability-Permitted ctx inbox (str "read") "read_inbox" id i h in
    (
      matching-eq-some ibx_pattern inbox id m,
      subst (λ x. Permitted ctx x id i) (sym (some-injective e)) p,
    )

-- The Home that was written stands under its id.
saved :
    (home : Home) (id : String) (s : Store)
    → home.home_id ≡ id
    → lookup id (save home s).homes ≡ some home
unfolding save
saved home id s e = rw (sym e) (lookup-insert_self home.home_id home s.homes)

check_read_inbox-IsReading :
    (now : ℕ) (scope_in : ScopeArg) (inbox limit : Value) (selector : SelectorArg) (s s' : Store)
    (ls : List Letter)
    → IsWellFormed s
    → check_read_inbox now scope_in inbox limit selector s ≡ pass (s', ls)
    → IsReading scope_in selector s s' inbox limit ls
unfolding check_read_inbox audit
check_read_inbox-IsReading now scope_in inbox limit selector s s' ls w h =
    let (ctx, e1, h1) = bind-eq-pass _ _ h in
    let ((id, i), e2, h2) = bind-eq-pass _ _ h1 in
    let (r, e3, h3) = bind-eq-pass _ _ h2 in
    let (scope, sel, accepted, chosen, res) = authorize-Resolved _ _ _ _ _ e1 in
    let sound = w.sound res.id ctx.home res.found in
    let (named, permitted) = read-Permitted ctx inbox id i e2 in
    subst (λ (p : Store × List Letter). IsReading scope_in selector s p.0 inbox limit p.1)
      (pass-injective h3)
      (record {
        scope = scope;
        selector = sel;
        ctx = ctx;
        accepted = accepted;
        selector_accepted = chosen;
        resolved = res;
        inbox_id = id;
        named = named;
        stored_inbox = i;
        permitted = permitted;
        letters =
            read_entries-IsLetter now ctx.home id sound.filed (limit_of limit) ctx.home.deliveries r
              sound.mail (λ k n. n) e3;
        shown =
            map-read_entries now ctx.home.messages id sound.filed (limit_of limit)
              ctx.home.deliveries r e3;
        count =
            length-read_entries now ctx.home id sound.filed (limit_of limit) ctx.home.deliveries r
              e3;
        after = record ctx.home { deliveries = r.deliveries };
        written =
            saved (record ctx.home { deliveries = r.deliveries }) res.id s
              (w.named res.id ctx.home res.found);
        marked =
            read_entries-IsMarked now ctx.home.messages id sound.filed (limit_of limit)
              ctx.home.deliveries r sound.mail e3;
      })

-- A read of an inbox that succeeds on a well-formed store is of the Home in which the connection of
-- its scope stands, by a grant to read that is in force. It shows the deliveries to the inbox that was
-- asked for, in their order up to the limit of the call, each as its stored message with its text and
-- sender, marked read; and in the store after, the delivery that each letter shows bears a time of
-- reading.
pub read_inbox-IsReading :
    (now : ℕ) (scope_in : ScopeArg) (inbox limit : Value) (selector : SelectorArg) (s : Store)
    (ls : List Letter)
    → IsWellFormed s
    → (read_inbox now scope_in inbox limit selector s).0 ≡ ok ls
    → IsReading scope_in selector s
        (read_inbox now scope_in inbox limit selector s).1
        inbox
        limit
        ls
unfolding read_inbox
read_inbox-IsReading now scope_in inbox limit selector s ls w h =
    check_read_inbox-IsReading now scope_in inbox limit selector s _ ls w
      (settle-eq-ok now _ s ls h)
