-- ===== src/Address/Trailing.antt =====
-- The zeros at the end of an IPv6 address that core/address.c writes.
use client.Base.{ℕ, zero, suc, ◌+◌, ◌*◌, ◌≡◌, ◌≢◌, refl, List, [], ◌∷◌, ◌++◌, ne→==}
use client.Text.{Text}
use client.Address.{unseen, inside, colon, hex, ipv6_groups, write_ipv6}

-- Whole groups, none of them zero.
unfoldable pub HasGroups : List ℕ → Type 0
HasGroups [] = Unit {0}
HasGroups (a ∷ []) = ⊥
HasGroups (a ∷ b ∷ host) = (a * 256 + b ≢ 0) × HasGroups host

abbrev pub zero_groups : ℕ → List ℕ
zero_groups zero = []
zero_groups (suc k) = 0 ∷ 0 ∷ zero_groups k

inside-zeros : (out : Text) (k : ℕ) → ipv6_groups inside out (zero_groups k) ≡ out
unfolding ipv6_groups
inside-zeros out zero = refl
inside-zeros out (suc k) = inside-zeros out k

unseen-zeros : (out : Text) (k : ℕ) → ipv6_groups unseen out (zero_groups k) ≡ out
unfolding ipv6_groups
unseen-zeros out zero = refl
unseen-zeros out (suc k) = inside-zeros out k

unseen-groups :
    (out : Text) (host : List ℕ) (k : ℕ)
    → HasGroups host
    → ipv6_groups unseen out (host ++ zero_groups k) ≡ ipv6_groups unseen out host
unfolding HasGroups ipv6_groups
unseen-groups out [] k h = unseen-zeros out k
unseen-groups out (a ∷ []) k h = absurd h
unseen-groups out (a ∷ b ∷ host) k h =
    rw (ne→== (a * 256 + b) 0 h.0) (unseen-groups (colon out ++ hex 3 (a * 256 + b)) host k h.1)

-- `write_ipv6` drops the groups of zeros at the end of an address whose other groups are not zero:
-- the text is the same for any number of them.
pub write_ipv6-zeros :
    (host : List ℕ) (k : ℕ) → HasGroups host → write_ipv6 (host ++ zero_groups k) ≡ write_ipv6 host
unfolding write_ipv6
write_ipv6-zeros host k h = rw (unseen-groups [] host k h)
