-- ===== src/Club/Simple.antt =====
-- club.h: SimpleMember, which has room for one membership, and what a club says of its records.
use ren_general.Base.{
  ℕ, Bool, true, false, not, List, [], ◌∷◌, ◌==◌, if◌then◌else◌, length, is_empty,
}
use ren_general.Exception.{Result, ok, ◌>>◌, assert}
use ren_general.Club.{Club, Record, register, leave}

-- Whether a member has a membership: `SingleMembership` is not NULL.
abbrev pub has_membership : ℕ → List (ℕ × ℕ) → Bool
has_membership m [] = false
has_membership m ((m', a) ∷ rest) = if m' == m then true else has_membership m rest

-- Join of a SimpleMember, within Register.
unfoldable pub register_simple : Club → ℕ → Result Club
register_simple c inductee =
    assert (not (has_membership inductee c.memberships)) >> ok (register c inductee)

-- The destructor of a SimpleMember deletes its one membership, if there is one.
unfoldable pub die_simple_loop : ℕ → List (ℕ × ℕ) → List Record → List (ℕ × ℕ) × List Record
die_simple_loop m [] records = ([], records)
die_simple_loop m ((m', a) ∷ rest) records =
    let (left, records') = die_simple_loop m rest records in
    if m' == m then (rest, leave a records) else ((m', a) ∷ left, records')

unfoldable pub die_simple : Club → ℕ → Club
unfolding die_simple_loop
die_simple c m =
    let (left, records) = die_simple_loop m c.memberships c.members in
    record c { members = records; memberships = left }

-- Begin, End and Empty.
unfoldable pub begin : Club → ℕ
begin c = 0

unfoldable pub end : Club → ℕ
end c = length c.members

unfoldable pub is_vacant : Club → Bool
is_vacant c = is_empty c.members
