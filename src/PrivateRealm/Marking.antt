-- ===== src/PrivateRealm/Marking.antt =====
-- src/private-realm/store.js, `readInbox`: which deliveries its loop shows, and how it stamps them.
use cairnstone_v.Prelude.{
  ℕ, zero, suc, String, ◌≡◌, ◌≢◌, refl, sym, ◌∙◌, ap, subst, none, some, true, false, string_eq,
  pair_eq, ◌==◌, arith, eq_iff, pair_eqb_iff, Bool-cases, inl, inr, List, [], ◌∷◌, map, take, keep,
  All, Option,
}
use cairnstone_v.Prelude.Dict.{Dict, lookup, values, AllEntries}
use cairnstone_v.PrivateRealm.Check.{pass, bind-eq-pass, pass-injective}
use cairnstone_v.PrivateRealm.State.{Message, Delivery}
use cairnstone_v.PrivateRealm.Mailbox.{Reading, Letter, read_entries, stamp, letter, mark_read}
use cairnstone_v.PrivateRealm.Invariant.{HasMessage}

-- Each message is stored under its own id.
abbrev pub IsKeyed : Dict String Message → Type 0
IsKeyed messages = (id : String) (m : Message) → lookup id messages ≡ some m → m.message_id ≡ id

-- The delivery of a message to an inbox, which bears a time of reading.
abbrev pub IsMarked : Dict (String × String) Delivery → String → Letter → Type 0
IsMarked ds inbox l =
    (d : Delivery) × (lookup (l.message_id, inbox) ds ≡ some d) × (d.read_at ≢ none)

pub stamped : (now : ℕ) (o : Option ℕ) → stamp now o ≢ none
stamped now none = cc
stamped now (some t) = cc

module _ (now : ℕ) (messages : Dict String Message) (inbox : String)
    (keyed : IsKeyed messages) where
  -- The letters are of the deliveries to the inbox, in their order, up to the room.
  pub map-read_entries :
      (room : ℕ) (ds : Dict (String × String) Delivery) (r : Reading)
      → read_entries now messages inbox room ds ≡ pass r
      → map Letter.message_id r.letters
        ≡ take room (map Delivery.message_id (keep (λ d. d.inbox_id == inbox) (values ds)))
  unfolding read_entries
  map-read_entries room [] r h =
      ap (λ (x : Reading). map Letter.message_id x.letters) (sym (pass-injective h))
      ∙ none_taken room
    where
      none_taken : (n : ℕ) → Path (List String) [] (take n [])
      none_taken zero = refl
      none_taken (suc n) = refl
  map-read_entries zero ((k, d) ∷ ds) r h =
      ap (λ (x : Reading). map Letter.message_id x.letters) (sym (pass-injective h))
  map-read_entries (suc room) ((k, d) ∷ ds) r h = elim (Bool-cases (d.inbox_id == inbox)) [
    | inl t ↦
        let (m, e1, h1) = bind-eq-pass _ _ (rw (t, read_entries) at h) in
        let (rest, e2, h2) = bind-eq-pass _ _ h1 in
        let stored : lookup d.message_id messages ≡ some m = ground arith in
        ap (λ (x : Reading). map Letter.message_id x.letters) (sym (pass-injective h2))
        ∙ rw (t, keyed d.message_id m stored)
            (ap (λ xs. d.message_id ∷ xs) (map-read_entries room ds rest e2))
    | inr f ↦
        let (rest, e2, h2) = bind-eq-pass _ _ (rw (f, read_entries) at h) in
        ap (λ (x : Reading). map Letter.message_id x.letters) (sym (pass-injective h2))
        ∙ rw f (map-read_entries (suc room) ds rest e2)
  ]

  -- One more delivery in front, of another inbox or itself marked.
  IsMarked-behind :
      (k : String × String) (d : Delivery) (ds : Dict (String × String) Delivery) (l : Letter)
      → ((k == (l.message_id, inbox)) ≡ true → d.read_at ≢ none)
      → IsMarked ds inbox l
      → IsMarked ((k, d) ∷ ds) inbox l
  unfolding lookup
  IsMarked-behind k d ds l f (e, found, read) = elim (Bool-cases (k == (l.message_id, inbox))) [
    | inl y ↦ (d, rw y refl, f y)
    | inr n ↦ (e, rw n found, read)
  ]

  all-behind :
      (k : String × String) (d : Delivery) (ds : Dict (String × String) Delivery) (ls : List Letter)
      → ((l : Letter) → (k == (l.message_id, inbox)) ≡ true → d.read_at ≢ none)
      → All (IsMarked ds inbox) ls
      → All (IsMarked ((k, d) ∷ ds) inbox) ls
  all-behind k d ds [] f a = tt
  all-behind k d ds (l ∷ ls) f (m, a) = (IsMarked-behind k d ds l (f l) m, all-behind k d ds ls f a)

  IsMarked-head :
      (k : String × String) (d : Delivery) (ds : Dict (String × String) Delivery) (l : Letter)
      → k ≡ (l.message_id, inbox)
      → d.read_at ≢ none
      → IsMarked ((k, d) ∷ ds) inbox l
  unfolding lookup
  IsMarked-head k d ds l e read = (d, rw ((pair_eqb_iff k (l.message_id, inbox)).1 e) refl, read)

  other-inbox :
      (k : String × String) (d : Delivery)
      → HasMessage messages k d
      → (d.inbox_id == inbox) ≡ false
      → (l : Letter) → (k == (l.message_id, inbox)) ≡ true
      → d.read_at ≢ none
  other-inbox k d has f l y =
      let same : d.inbox_id ≡ inbox =
        has.inbox
        ∙ ap (λ (p : String × String). p.1) ((pair_eqb_iff k (l.message_id, inbox)).0 y) in
      absurd (true-ne-false (sym ((eq_iff d.inbox_id inbox).1 same) ∙ f))
    where
      true-ne-false : true ≡ false → ⊥
      true-ne-false h = cc

  -- The deliveries that are written back are marked where a letter shows them.
  pub read_entries-IsMarked :
      (room : ℕ) (ds : Dict (String × String) Delivery) (r : Reading)
      → AllEntries (HasMessage messages) ds
      → read_entries now messages inbox room ds ≡ pass r
      → All (IsMarked r.deliveries inbox) r.letters
  unfolding read_entries
  read_entries-IsMarked room [] r a h =
      subst (λ (x : Reading). All (IsMarked x.deliveries inbox) x.letters) (pass-injective h) tt
  read_entries-IsMarked zero ((k, d) ∷ ds) r a h =
      subst (λ (x : Reading). All (IsMarked x.deliveries inbox) x.letters) (pass-injective h) tt
  read_entries-IsMarked (suc room) ((k, d) ∷ ds) r (has, a) h =
      elim (Bool-cases (d.inbox_id == inbox)) [
        | inl t ↦
            let (m, e1, h1) = bind-eq-pass _ _ (rw (t, read_entries) at h) in
            let (rest, e2, h2) = bind-eq-pass _ _ h1 in
            let stored : lookup d.message_id messages ≡ some m = ground arith in
            let id = keyed d.message_id m stored in
            subst (λ (x : Reading). All (IsMarked x.deliveries inbox) x.letters) (pass-injective h2)
              (
                IsMarked-head k (mark_read now d) rest.deliveries (letter m (mark_read now d))
                    (key_eq k d m has.message has.inbox t id) (stamped now d.read_at),
                all-behind k (mark_read now d) rest.deliveries rest.letters
                    (λ l e. stamped now d.read_at) (read_entries-IsMarked room ds rest a e2),
              )
        | inr f ↦
            let (rest, e2, h2) = bind-eq-pass _ _ (rw (f, read_entries) at h) in
            subst (λ (x : Reading). All (IsMarked x.deliveries inbox) x.letters) (pass-injective h2)
              (all-behind k d rest.deliveries rest.letters (other-inbox k d has f)
                (read_entries-IsMarked (suc room) ds rest a e2))
      ]
    where
      key_eq :
          (k : String × String) (d : Delivery) (m : Message)
          → d.message_id ≡ k.0
          → d.inbox_id ≡ k.1
          → (d.inbox_id == inbox) ≡ true
          → m.message_id ≡ d.message_id
          → k ≡ (m.message_id, inbox)
      key_eq k d m p q t e = ground (arith, eq_iff d.inbox_id inbox)
