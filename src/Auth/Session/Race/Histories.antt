-- ===== src/Auth/Session/Race/Histories.antt =====
-- The histories of refresh_tokens under any number of rotations and logins, in any order.
use mathlib.Core.List.{Memᴰ}
use mascotapp.Base.{
  ℕ, ◌≡◌, refl, ap, sym, subst, inl, inr, Bool-cases, false, List, ◌∷◌, [], All, Bytes, ◌=ᵇ◌,
  =ᵇ_iff, any, arith,
}
use mascotapp.Db.State.{State, RefreshToken, ok}
use mascotapp.Db.Hoare.{Keeps, Keeps->>=, Keeps-pure}
use mascotapp.Auth.Session.Race.Closed.{Closed, OnRows, rotate_presented-Keeps, issue-Keeps}
use mascotapp.Auth.Session.Race.Reach.{
  of_family, Dead, OneLive, Known, Known-Closed, Dead-Closed, OneLive-Closed, rotate_presented-dead,
}
use mascotapp.Auth.Session.{RotationOutcome, rotate_presented, issue_in_family}

-- The server, and the rows that the transactions in flight have read.
pub record Server : Type 0 where
  pub state : State
  pub waiting : List RefreshToken

abbrev pub rows : Server → List RefreshToken
rows c = c.state.tables.refresh_tokens

module _ (sha256 : Bytes → Bytes) where
  -- Each transaction is read committed: what it read may be stale when its turn on the family's lock
  -- comes. A rotation that fails is rolled back, and so no step.
  pub data Step (c : Server) : Server → Type 0 where
    -- Time passes, a scope is set, a statement is about to fail.
    elapse : (t : State) → t.tables ≡ c.state.tables → Step c (record c { state = t })
    -- A transaction reads a row, the only one with its primary key.
    read : (p : RefreshToken) → Known p (rows c) → Step c (record c { waiting = p ∷ c.waiting })
    -- It gets the lock of the row's family, runs to its end and commits.
    finish :
        (p : RefreshToken) (now : ℕ) (o : RotationOutcome)
        → Memᴰ p c.waiting
        → (rotate_presented sha256 p now c.state).0 ≡ ok o
        → Step c (record c { state = (rotate_presented sha256 p now c.state).1 })
    -- A login starts a family, under an id that is new.
    login :
        (user family : Bytes) (now : ℕ) (cookie : Bytes)
        → any (of_family family) (rows c) ≡ false
        → (issue_in_family sha256 user family now c.state).0 ≡ ok cookie
        → Step c (record c { state = (issue_in_family sha256 user family now c.state).1 })

  pub data Reach (c : Server) : Server → Type 0 where
    here : Reach c c
    next : {d e : Server} → Reach c d → Step d e → Reach c e

  issue_in_family-Keeps :
      (user family : Bytes) (now : ℕ) (R : List RefreshToken → Type 0)
      → Closed family R
      → Keeps (OnRows R) (issue_in_family sha256 user family now)
  unfolding issue_in_family
  issue_in_family-Keeps user family now R c =
      Keeps->>= (OnRows R) _ _ (issue-Keeps family R c sha256 user family now refl)
        (λ _. Keeps-pure)

  -- What a row that is in flight needs.
  abbrev IsSound : Server → Type 0
  IsSound c = All (λ p. Known p (rows c)) c.waiting

  All-imp :
      (ps : List RefreshToken) {P Q : RefreshToken → Type 0}
      → ((p : RefreshToken) → P p → Q p)
      → All P ps
      → All Q ps
  All-imp [] f h = tt
  All-imp (p ∷ ps) f (h, hs) = (f p h, All-imp ps f hs)

  sound_member :
      (P : RefreshToken → Type 0) (ps : List RefreshToken) (p : RefreshToken)
      → Memᴰ p ps
      → All P ps
      → P p
  sound_member P [] p m h = elim m [ ]
  sound_member P (x ∷ ps) p (Memᴰ.head e) h = subst P (sym e) h.0
  sound_member P (x ∷ ps) p (Memᴰ.tail m) h = sound_member P ps p m h.1

  -- What the statements of a rotation keep, a rotation of p keeps.
  rotated :
      (R : List RefreshToken → Type 0) (p : RefreshToken)
      → Closed p.family_id R
      → (now : ℕ) (s : State) → R s.tables.refresh_tokens
      → R (rotate_presented sha256 p now s).1.tables.refresh_tokens
  rotated R p c now s = (rotate_presented-Keeps p.family_id R c sha256 p now refl).apply s

  started :
      (R : List RefreshToken → Type 0) (user family : Bytes)
      → Closed family R
      → (now : ℕ) (s : State) → R s.tables.refresh_tokens
      → R (issue_in_family sha256 user family now s).1.tables.refresh_tokens
  started R user family c now s = (issue_in_family-Keeps user family now R c).apply s

  Step-IsSound : {c d : Server} → Step c d → IsSound c → IsSound d
  Step-IsSound {c} (elapse t same) h =
      subst (λ ts. All (λ p. Known p ts.refresh_tokens) c.waiting) (sym same) h
  Step-IsSound (read p k) h = (k, h)
  Step-IsSound {c} (finish q now o m e) h =
      All-imp c.waiting (λ p. rotated (Known p) q (Known-Closed q.family_id p) now c.state) h
  Step-IsSound {c} (login user family now cookie new e) h =
      All-imp c.waiting (λ p. started (Known p) user family (Known-Closed family p) now c.state) h

  pub Reach-IsSound : {c d : Server} → Reach c d → IsSound c → IsSound d
  Reach-IsSound here h = h
  Reach-IsSound (next r s) h = Step-IsSound s (Reach-IsSound r h)

  -- A rotation of a dead family leaves it dead, and so does one of another family.
  finish-Dead :
      (family : Bytes) (c : Server) (p : RefreshToken) (now : ℕ)
      → Known p (rows c)
      → Dead family (rows c)
      → Dead family (rotate_presented sha256 p now c.state).1.tables.refresh_tokens
  finish-Dead family c p now k d = elim (Bool-cases (p.family_id =ᵇ family)) [
    | inl same ↦
        let e = =ᵇ_iff p.family_id family in
        subst (λ f. Dead f (rotate_presented sha256 p now c.state).1.tables.refresh_tokens)
          (e.0 same)
          ((rotate_presented-dead sha256 p now).apply c.state
            (subst (λ f. Dead f (rows c)) (sym (e.0 same)) d, k)).0
    | inr differs ↦
        rotated (Dead family) p
          (Dead-Closed family p.family_id
            (λ e. grind (arith, differs, (=ᵇ_iff p.family_id family).1 e)))
          now c.state d
  ]

  Step-Dead :
      (family : Bytes) {c d : Server}
      → Step c d
      → IsSound c
      → Dead family (rows c)
      → Dead family (rows d)
  Step-Dead family (elapse t same) h d = subst (λ ts. Dead family ts.refresh_tokens) (sym same) d
  Step-Dead family (read p k) h d = d
  Step-Dead family {c} (finish p now o m e) h d =
      finish-Dead family c p now (sound_member (λ q. Known q (rows c)) c.waiting p m h) d
  Step-Dead family {c} (login user f now cookie new e) h d =
      started (Dead family) user f
        (Dead-Closed family f
          (λ same. grind (arith, new, d.0, ap (λ g. any (of_family g) (rows c)) same)))
        now c.state d

  -- A family that is dead, every token of it revoked, is dead in every state that the server reaches,
  -- whatever rotations were waiting for the lock when it died and whatever logins come after.
  pub Reach-Dead :
      (family : Bytes) {c d : Server}
      → Reach c d
      → IsSound c
      → Dead family (rows c)
      → Dead family (rows d)
  Reach-Dead family here h d = d
  Reach-Dead family (next r s) h d =
      Step-Dead family s (Reach-IsSound r h) (Reach-Dead family r h d)

  Step-OneLive :
      (family : Bytes) {c d : Server} → Step c d → OneLive family (rows c) → OneLive family (rows d)
  Step-OneLive family (elapse t same) d =
      subst (λ ts. OneLive family ts.refresh_tokens) (sym same) d
  Step-OneLive family (read p k) d = d
  Step-OneLive family {c} (finish p now o m e) d =
      rotated (OneLive family) p (OneLive-Closed family p.family_id) now c.state d
  Step-OneLive family {c} (login user f now cookie new e) d =
      started (OneLive family) user f (OneLive-Closed family f) now c.state d

  -- A family with at most one live token has at most one in every state that the server reaches: of
  -- two rotations of one cookie, however they interleave, at most one has a live successor.
  pub Reach-OneLive :
      (family : Bytes) {c d : Server}
      → Reach c d
      → OneLive family (rows c)
      → OneLive family (rows d)
  Reach-OneLive family here d = d
  Reach-OneLive family (next r s) d = Step-OneLive family s (Reach-OneLive family r d)
