-- ===== src/TableSession/Live.antt =====
-- The sessions of a table that go on, and how an update of one session changes them.
use boardbite_pos.Prelude.{
  ℕ, ◌≡◌, ◌≢◌, refl, inl, inr, Bool-cases, Bool, true, ◌&&◌, List, [], ◌∷◌, arith, if◌then◌else◌,
  ◌==◌, update, update_none, count, All,
}
use boardbite_pos.Domain.Status.{SessionStatus, is_live}
use boardbite_pos.Domain.Rows.{Session}

-- The statuses of the table's sessions that are active or paid and waiting.
abbrev pub live_of : ℕ → List Session → List SessionStatus
live_of tid [] = []
live_of tid (s ∷ ss) =
    let rest = live_of tid ss in
    if s.table_id == tid then (if is_live s.status then s.status ∷ rest else rest) else rest

-- Sessions of the id `sid` belong to the table `tid`.
abbrev pub Owned : ℕ → ℕ → List Session → Type 0
Owned sid tid = All (λ s. (s.id == sid) ≡ true → s.table_id ≡ tid)

abbrev pub live_status : SessionStatus → List SessionStatus
live_status st = if is_live st then st ∷ [] else []

-- An update of the sessions of one id whose status passes the test `c`, to the status `to`.
module _ (sid tid : ℕ) (c : SessionStatus → Bool) (to : SessionStatus) (f : Session → Session)
    (live : (st : SessionStatus) → c st ≡ true → is_live st ≡ true)
    (keeps : (s : Session) → (f s).table_id ≡ s.table_id)
    (sets : (s : Session) → (f s).status ≡ to) where
  abbrev pick : Session → Bool
  pick s = s.id == sid && c s.status

  pub live_of-update_other :
      (other : ℕ) (ss : List Session)
      → other ≢ tid
      → Owned sid tid ss
      → live_of other (update pick f ss) ≡ live_of other ss
  live_of-update_other other [] ne own = refl
  live_of-update_other other (s ∷ ss) ne own =
      ground (arith, live_of-update_other other ss ne own.1, keeps s)

  -- A session that is updated is among the live ones before.
  pub live_of-some :
      (ss : List Session) → count pick ss ≡ 1 → Owned sid tid ss → live_of tid ss ≢ []
  live_of-some [] n own e = absurd (omega arith)
  live_of-some (s ∷ ss) n own e = ground (arith, live_of-some ss, own.0, live s.status)

  pub live_of-update_own :
      (st : SessionStatus) (ss : List Session)
      → count pick ss ≡ 1
      → Owned sid tid ss
      → live_of tid ss ≡ st ∷ []
      → (c st ≡ true) × (live_of tid (update pick f ss) ≡ live_status to)
  live_of-update_own st [] n own e = absurd (omega arith)
  live_of-update_own st (s ∷ ss) n own e = elim (Bool-cases (pick s)) [
    | inl hit ↦
        let same : (s.id == sid) ≡ true = ground arith in
        let fits : c s.status ≡ true = ground arith in
        let mine : s.table_id ≡ tid = own.0 same in
        let going : is_live s.status ≡ true = live s.status fits in
        let rest : count pick ss ≡ 0 = ground arith in
        ground (arith, update_none pick f ss rest, keeps s, sets s)
    | inr miss ↦
        let more : count pick ss ≡ 1 = ground arith in
        let some_live : live_of tid ss ≢ [] = live_of-some ss more own.1 in
        ground (arith, live_of-update_own st ss more own.1)
  ]
