-- ===== src/Clients/Login.antt =====
-- sdk/clients/gwClient.go, Connect: clients that share a token and have it refused.
use tcg.Common.{
  Sum-cases, ◌⊎◌, inl, inr, ◌≡◌, refl, sym, ℕ, suc, ◌+◌, ◌≤◌, true, false, none, some, List, [],
  ◌∷◌, String, All, arith, length, lookup, insert, lookup-insert, str_eq, eq_iff, is_some,
  Bool-cases, if◌then◌else◌,
}
use tcg.Clients.{
  GwClient, World, Tokens, Answer, token, token_key, connect, connect_local, authenticate_password,
}
use tcg.Clients.Errors.{Error}

-- A client whose token was refused: the token that Connect reads before it takes the lock, which is
-- what was stored when its own refusal came, and the answer to the login that it would send.
pub record Refused : Type 0 where
  pub client : GwClient
  pub prev : String
  pub login : Answer

-- The requests and the errors of clients that take the lock in this order.
unfoldable pub connect_all : World → List Refused → Tokens → ℕ × ℕ
unfolding connect
connect_all world [] tokens = (0, 0)
connect_all world (x ∷ xs) tokens =
    let r = connect world x.client x.prev x.login tokens in
    let (requests, failures) = connect_all world xs r.tokens in
    (length r.requests + requests, (if is_some r.failure then 1 else 0) + failures)

abbrev pub login_of : World → GwClient → Answer → Error ⊎ String
login_of world c a =
    if c.local_connection then connect_local world a else authenticate_password world a

-- The clients share a token, and the same one was stored when each of their refusals came.
abbrev pub Shares : String → String → List Refused → Type 0
Shares k prev = All (λ x. (token_key x.client ≡ k) × (x.prev ≡ prev))

-- A login never gets the refused token again.
abbrev pub Fresh : World → String → List Refused → Type 0
Fresh world prev =
    All (λ x. (t : String) → login_of world x.client x.login ≡ inr t → str_eq prev t ≡ false)

abbrev read : String → Tokens → String
read k tokens = elim (lookup k tokens) [ none ↦ "" | some t ↦ t ]

read-insert : (k t : String) (tokens : Tokens) → read k (insert k t tokens) ≡ t
read-insert k t tokens = ground (arith, lookup-insert k k t tokens, eq_iff k k)

module _ (world : World) (prev : String) where
  connect-idle :
      (c : GwClient) (a : Answer) (tokens : Tokens)
      → str_eq prev (read (token_key c) tokens) ≡ false
      → connect world c prev a tokens ≡ record { failure = none; tokens = tokens; requests = [] }
  unfolding connect token
  connect-idle c a tokens h = rw h refl

  connect_all-idle :
      (k : String) (cs : List Refused) (tokens : Tokens)
      → Shares k prev cs
      → str_eq prev (read k tokens) ≡ false
      → connect_all world cs tokens ≡ (0, 0)
  unfolding connect_all
  connect_all-idle k [] tokens s h = refl
  connect_all-idle k (x ∷ cs) tokens ((e, p), s) h =
      rw (p, connect-idle x.client x.login tokens (rw e h), connect_all-idle k cs tokens s h) refl

  module _ (c : GwClient) (a : Answer) (tokens : Tokens) where
    connect-failed :
        (e : Error)
        → login_of world c a ≡ inl e
        → str_eq prev (read (token_key c) tokens) ≡ true
        → ((connect world c prev a tokens).tokens ≡ tokens)
          × ((connect world c prev a tokens).failure ≡ some e)
          × (length (connect world c prev a tokens).requests ≡ 1)
    unfolding connect token
    connect-failed e l h = ground arith

    connect-stored :
        (t : String)
        → login_of world c a ≡ inr t
        → str_eq prev (read (token_key c) tokens) ≡ true
        → ((connect world c prev a tokens).tokens ≡ insert (token_key c) t tokens)
          × ((connect world c prev a tokens).failure ≡ none)
          × (length (connect world c prev a tokens).requests ≡ 1)
    unfolding connect token
    connect-stored t l h = ground arith

  changed :
      (k : String) (c : GwClient) (new : String) (tokens : Tokens)
      → token_key c ≡ k
      → str_eq prev new ≡ false
      → str_eq prev (read k (insert (token_key c) new tokens)) ≡ false
  changed k c new tokens e h = rw (e, read-insert k new tokens) h

  -- Clients that share a token, where the same one was stored when each was refused and the logins get
  -- others than it, send no login but those that fail and one more, however many they are.
  pub connect_all_once :
      (k : String) (cs : List Refused) (tokens : Tokens)
      → Shares k prev cs
      → Fresh world prev cs
      → (connect_all world cs tokens).0 ≤ suc (connect_all world cs tokens).1
  unfolding connect_all
  connect_all_once k [] tokens s f = omega arith
  connect_all_once k (x ∷ cs) tokens ((e, p), s) (f, fs) =
      let c = x.client in
      let a = x.login in
      elim (Bool-cases (str_eq prev (read (token_key c) tokens))) [
        | inr h ↦
            rw (p, connect-idle c a tokens h, connect_all-idle k cs tokens s (rw (sym e) h))
              (omega arith)
        | inl h ↦ elim (Sum-cases (login_of world c a)) [
          | inl (er, l) ↦
              (let (t, y, n) = connect-failed c a tokens er l h in
                rw (p, t, y, n) (omega (arith, connect_all_once k cs tokens s fs)))
          | inr (new, l) ↦
              (let (t, y, n) = connect-stored c a tokens new l h in
                rw
                  (
                    p,
                    t,
                    y,
                    n,
                    connect_all-idle k cs (insert (token_key c) new tokens) s
                        (changed k c new tokens e (f new l)),
                  )
                  (omega arith))
        ]
      ]
