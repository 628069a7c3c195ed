-- ===== src/Club.antt =====
-- club.h: Club, Membership and MultiMember, with ActiveClub. A record of a club is its address, the
-- flag that a Membership refers to, and the member. The memberships of all members are one list of
-- members and records. What is freed, and what UpdateMember is called with, is kept, the last first.
pub mod Leaving
pub mod Simple
pub mod Tests
use ren_general.Base.{
  ℕ, suc, Bool, true, false, not, List, [], ◌∷◌, ◌==◌, if◌then◌else◌, push_back, Option, none, some,
}
use ren_general.Exception.{Result, ok, ◌>>=◌, ◌>>◌, assert}

pub record Record : Type 0 where
  pub address : ℕ
  pub active : Bool
  pub member : ℕ

pub record Club : Type 0 where
  pub next : ℕ
  pub members : List Record
  pub memberships : List (ℕ × ℕ)
  pub deleted : List ℕ
  pub updated : List ℕ

unfoldable pub new : Club
new = record { next = 0; members = []; memberships = []; deleted = []; updated = [] }

-- Register, with the Join of a MultiMember.
unfoldable pub register : Club → ℕ → Club
register c inductee = record c {
  next = suc c.next;
  members = push_back c.members (record { address = c.next; active = true; member = inductee });
  memberships = push_back c.memberships (inductee, c.next);
}

-- The destructor of a Membership.
unfoldable pub leave : ℕ → List Record → List Record
leave a [] = []
leave a (r ∷ rs) = (if r.address == a then record r { active = false } else r) ∷ leave a rs

-- The destructor of a MultiMember deletes its memberships: those that are left, and the records.
unfoldable pub die_loop : ℕ → List (ℕ × ℕ) → List Record → List (ℕ × ℕ) × List Record
unfolding leave
die_loop m [] records = ([], records)
die_loop m ((m', a) ∷ rest) records =
    let (left, records') = die_loop m rest (if m' == m then leave a records else records) in
    ((if m' == m then left else (m', a) ∷ left), records')

unfoldable pub die : Club → ℕ → Club
unfolding die_loop
die c m =
    let (left, records) = die_loop m c.memberships c.members in
    record c { members = records; memberships = left }

-- The loop of Clean, with what was freed before.
unfoldable pub clean_loop : List Record → List ℕ → List Record × List ℕ
clean_loop [] deleted = ([], deleted)
clean_loop (r ∷ rs) deleted =
    let (left, freed) = clean_loop rs (if r.active then deleted else r.address ∷ deleted) in
    ((if r.active then r ∷ left else left), freed)

unfoldable pub clean : Club → Club
unfolding clean_loop
clean c =
    let (left, freed) = clean_loop c.members c.deleted in
    record c { members = left; deleted = freed }

-- The loop of Update of an ActiveClub, which also updates the members.
unfoldable pub update_loop : List Record → List ℕ → List ℕ → List Record × List ℕ × List ℕ
update_loop [] deleted updated = ([], deleted, updated)
update_loop (r ∷ rs) deleted updated =
    let (left, freed, seen) =
      update_loop rs (if r.active then deleted else r.address ∷ deleted)
        (if r.active then r.member ∷ updated else updated) in
    ((if r.active then r ∷ left else left), freed, seen)

unfoldable pub update : Club → Club
unfolding update_loop
update c =
    let (left, freed, seen) = update_loop c.members c.deleted c.updated in
    record c { members = left; deleted = freed; updated = seen }

-- Front and Back of a club that is not empty: no member when the record is stale.
unfoldable pub front : Record → List Record → Option ℕ
front r rs = if not r.active then none else some r.member

unfoldable pub back : Record → List Record → Option ℕ
back r [] = if not r.active then none else some r.member
back r (r' ∷ rs) = back r' rs

-- The destructor's loop: what it has freed.
unfoldable pub destruct_loop : List Record → List ℕ → Result (List ℕ)
destruct_loop [] deleted = ok deleted
destruct_loop (r ∷ rs) deleted = assert (not r.active) >> destruct_loop rs (r.address ∷ deleted)

unfoldable pub destruct : Club → Result (List ℕ)
unfolding destruct_loop
destruct c = destruct_loop c.members c.deleted
