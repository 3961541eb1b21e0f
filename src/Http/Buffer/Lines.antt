-- ===== src/Http/Buffer/Lines.antt =====
-- Lines that core/http.c reads in pieces.
use client.Base.{
  ℕ, ◌-◌, ◌≤◌, ◌≡◌, refl, sym, ◌∙◌, ap, Bool, true, false, Option, none, some, List, [], ◌∷◌, ◌++◌,
  ◌&&◌, ◌==◌, leb, length, length-append, arith, append-nil, append_assoc, All, Option-cases, inl,
  inr,
}
use client.Text.{Text}
use client.Http.Buffer.{line_at, scan, Search, search_line}

abbrev joined : List Text → Text
joined [] = []
joined (t ∷ l) = t ++ joined l

-- The last character is no CR.
abbrev EndsClean : Text → Type 0
EndsClean [] = Unit {0}
EndsClean (c ∷ []) = (c == 13) ≡ false
EndsClean (c ∷ d ∷ t) = EndsClean (d ∷ t)

line_at-extended :
    (b : Bool) (c : ℕ) (t u : Text) (r s : Option (Text × Text)) (p : Text × Text)
    → ((q : Text × Text) → r ≡ some q → s ≡ some (q.0, q.1 ++ u))
    → line_at b c t r ≡ some p
    → line_at b c (t ++ u) s ≡ some (p.0, p.1 ++ u)
unfolding line_at
line_at-extended true c t u r s p f h =
    ap {B = Option (Text × Text)} (λ o. elim o [ none ↦ none | some q ↦ some (q.0, q.1 ++ u) ]) h
line_at-extended false c t u none s p f h = cc
line_at-extended false c t u (some r) s p f h =
    ap (line_at false c (t ++ u)) (f r refl)
    ∙ ap {B = Option (Text × Text)} (λ o. elim o [ none ↦ none | some q ↦ some (q.0, q.1 ++ u) ]) h

-- A line found in the beginning of a text is the line of the text.
scan-found : (t u : Text) (p : Text × Text) → scan t ≡ some p → scan (t ++ u) ≡ some (p.0, p.1 ++ u)
unfolding scan
scan-found [] u p h = cc
scan-found (c ∷ []) u p h = cc
scan-found (c ∷ d ∷ t) u p h =
    line_at-extended (c == 13 && d == 10) c t u (scan (d ∷ t)) (scan (d ∷ t ++ u)) p
      (λ q e. scan-found (d ∷ t) u q e) h

abbrev behind : Text → Option (Text × Text) → Option (Text × Text)
behind t none = none
behind t (some r) = some (t ++ r.0, r.1)

behind-nil : (r : Option (Text × Text)) → r ≡ behind [] r
behind-nil none = refl
behind-nil (some r) = refl

line_at-behind :
    (c : ℕ) (t u : Text) (r : Option (Text × Text))
    → line_at false c u (behind t r) ≡ behind (c ∷ t) r
unfolding line_at
line_at-behind c t u none = refl
line_at-behind c t u (some r) = refl

line_at-none :
    (b : Bool) (c : ℕ) (t : Text) (r : Option (Text × Text))
    → line_at b c t r ≡ none
    → (b ≡ false) × (r ≡ none)
unfolding line_at
line_at-none true c t r h = cc
line_at-none false c t none h = (refl, refl)
line_at-none false c t (some r) h = cc

-- Where the beginning of a text has no line and does not end with a CR, the line of the text is
-- that of the rest, with the beginning before it.
scan-none : (t u : Text) → scan t ≡ none → EndsClean t → scan (t ++ u) ≡ behind t (scan u)
unfolding scan
scan-none [] u h clean = behind-nil (scan u)
scan-none (c ∷ []) [] h clean = refl
scan-none (c ∷ []) (d ∷ u) h clean =
    let no_end : (c == 13 && d == 10) ≡ false = rw clean refl in
    ap (λ b. line_at b c u (scan (d ∷ u))) no_end
    ∙ ap (line_at false c u) (behind-nil (scan (d ∷ u)))
    ∙ line_at-behind c [] u (scan (d ∷ u))
scan-none (c ∷ d ∷ t) u h clean =
    let parts = line_at-none (c == 13 && d == 10) c t (scan (d ∷ t)) h in
    ap (λ b. line_at b c (t ++ u) (scan (d ∷ t ++ u))) parts.0
    ∙ ap (line_at false c (t ++ u)) (scan-none (d ∷ t) u parts.1 clean)
    ∙ line_at-behind c (d ∷ t) (t ++ u) (scan u)

-- A search that finds the line `l` where `n` follows.
pub record Finds (l n : Text) (s : Search) : Type 0 where
  pub next : Text
  pub line : s.line ≡ some (l, next)
  pub rest : next ++ joined s.input ≡ n

line_of : Option (Text × Text) → Text
line_of none = []
line_of (some p) = p.0

rest_of : Option (Text × Text) → Text
rest_of none = []
rest_of (some p) = p.1

found_now :
    (passed rest l n : Text) (input : List Text) (p : Text × Text)
    → scan (rest ++ joined input) ≡ some (l, n)
    → scan rest ≡ some p
    → Finds (passed ++ l) n (record { line = some (passed ++ p.0, p.1); read = []; input = input })
unfolding line_of rest_of
found_now passed rest l n input p h e =
    let same = sym (scan-found rest (joined input) p e) ∙ h in
    record {
      next = p.1;
      line = ap (λ t. some (passed ++ t, p.1)) (ap line_of same);
      rest = ap rest_of same;
    }

-- What the rest of the input gives where the search goes on.
behind-parts :
    (t l n : Text) (r : Option (Text × Text))
    → behind t r ≡ some (l, n)
    → (m : Text) × (r ≡ some (m, n)) × (t ++ m ≡ l)
unfolding line_of rest_of
behind-parts t l n none h = cc
behind-parts t l n (some r) h = (r.0, ap (λ m. some (r.0, m)) (ap rest_of h), ap line_of h)

rejoined :
    (passed rest m l n : Text) (s : Search)
    → rest ++ m ≡ l
    → Finds ((passed ++ rest) ++ m) n s
    → Finds (passed ++ l) n s
rejoined passed rest m l n s e found = record {
  next = found.next;
  line =
      found.line
      ∙ ap (λ t. some (t, found.next)) (append_assoc passed rest m ∙ ap (λ t. passed ++ t) e);
  rest = found.rest;
}

one_read :
    (passed rest chunk : Text) (space : ℕ) (input : List Text) (l n : Text)
    → (length chunk == 0) ≡ false
    → length chunk ≤ space
    → scan rest ≡ none
    → Finds l n (search_line (passed ++ rest) chunk (space - length chunk) input)
    → Finds l n (search_line passed rest space (chunk ∷ input))
unfolding search_line
one_read passed rest chunk space input l n filled room none_yet found =
    let some_space : (space == 0) ≡ false = ground arith in
    let whole : leb (length chunk) space ≡ true = ground arith in
    rw (none_yet, some_space, filled, whole, search_line) found

no_read :
    (passed rest chunk : Text) (space : ℕ) (input : List Text) (l n : Text) (p : Text × Text)
    → scan (rest ++ joined (chunk ∷ input)) ≡ some (l, n)
    → scan rest ≡ some p
    → Finds (passed ++ l) n (search_line passed rest space (chunk ∷ input))
unfolding search_line
no_read passed rest chunk space input l n p h e =
    rw e (found_now passed rest l n (chunk ∷ input) p h e)

-- The reads of a line give each at least one byte and, together, no more than the space of the
-- buffer, and no read ends with a CR: then the line that is found, and what follows it in the buffer
-- and in the reads to come, are those of the whole text, however it is cut into reads.
pub search_line-Finds :
    (passed rest : Text) (space : ℕ) (input : List Text) (l n : Text)
    → All (λ t. (length t == 0) ≡ false) input
    → EndsClean rest
    → All EndsClean input
    → length (joined input) ≤ space
    → scan (rest ++ joined input) ≡ some (l, n)
    → Finds (passed ++ l) n (search_line passed rest space input)
search_line-Finds passed rest space [] l n filled clean cuts room h =
    let found : scan rest ≡ some (l, n) = ap scan (sym (append-nil rest)) ∙ h in
    unfold search_line in (rw found (record { next = n; line = refl; rest = append-nil n }))
search_line-Finds passed rest space (chunk ∷ input) l n filled clean cuts room h =
    elim (Option-cases (scan rest)) [
      | inr p ↦ no_read passed rest chunk space input l n p.0 h p.1
      | inl e ↦
          let size = length-append chunk (joined input) in
          let parts =
            behind-parts rest l n (scan (chunk ++ joined input))
              (sym (scan-none rest (chunk ++ joined input) e clean) ∙ h) in
          let later =
            search_line-Finds (passed ++ rest) chunk (space - length chunk) input parts.0 n filled.1
              cuts.0 cuts.1 (omega (arith, size, room)) parts.1 in
          one_read passed rest chunk space input (passed ++ l) n filled.0
            (omega (arith, size, room)) e (rejoined passed rest parts.0 l n _ parts.2 later)
    ]
