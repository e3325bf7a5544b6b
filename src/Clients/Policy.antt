-- ===== src/Clients/Policy.antt =====
-- sdk/clients/gwClient.go, services/nats.go and nats/dispatcher.go together: what becomes of a message,
-- from what the server answers.
use tcg.Common.{
  ◌⊎◌, inl, inr, ◌≡◌, refl, ℕ, ◌<◌, leb, Bool, true, false, not, ◌&&◌, ◌||◌, none, some, List,
  String, arith, length, lookup, insert, ◌==◌, Bool-cases, Option-cases, if◌then◌else◌,
}
use tcg.Clients.{
  GwClient, World, Tokens, Req, Answer, fails, answers, token, connect, connect_local,
  authenticate_password, network_error, login_error, status_error, Connected,
}
use tcg.Clients.Errors.{Error, is_transient, sentinel_is_transient, wraps, is_error_network}
use tcg.Clients.Requests.{
  Call, Answers, send_request, outcome, resend, send_error, refuses, request_of,
}
use tcg.Clients.Delivery.{client_error, verdict_of}
use tcg.Dispatcher.{
  Verdict, delivered, permanent, transient, Dispatcher, process_msg, conclude, retry_or_stop,
}

-- The policy: no answer from the network or a gateway's status is tried again, 200 is delivered,
-- and the rest is given up.
abbrev pub of_status : ℕ → Verdict
of_status status =
    if status == 200
    then delivered
    else if leb 502 status && leb status 504
    then transient
    else permanent

abbrev is_retry : Verdict → Bool
is_retry transient = true
is_retry _ = false

abbrev is_delivery : Verdict → Bool
is_delivery delivered = true
is_delivery _ = false

module _ (world : World) where
  abbrev pub of_answer : Answer → Verdict
  of_answer (answers status body) = of_status status
  of_answer (fails e) =
      if (e.canceled || e.deadline_exceeded) || is_error_network world.windows e
      then transient
      else permanent

  abbrev pub verdict_sent : Error ⊎ String → Verdict
  verdict_sent (inl e) = verdict_of (some (client_error e))
  verdict_sent (inr body) = delivered

  of_answer-outcome : (a : Answer) → verdict_sent (outcome world a) ≡ of_answer a
  unfolding outcome send_error status_error verdict_of is_transient sentinel_is_transient wraps
  of_answer-outcome (fails e) = ground arith
  of_answer-outcome (answers status body) = ground arith

  -- What Connect's own request comes to: none if it has a token.
  abbrev pub of_login : GwClient → Answer → Verdict
  of_login c (fails e) = if is_error_network world.windows e then transient else permanent
  of_login c (answers status body) =
      if leb 502 status && leb status 504 then transient else permanent

  -- The policy for a request: a refused one is sent again with a token, which Connect gets by itself
  -- or finds changed since it read its own, and its verdict is then that of the second answer.
  abbrev pub of_answers : GwClient → Answers → Verdict
  of_answers c a =
      if refuses a.first
      then elim (connect world c (token c a.seen) a.login a.held).failure [
        | none ↦ of_answer a.second
        | some e ↦ of_login c a.login
      ]
      else of_answer a.first

  login_failed :
      (c : GwClient) (prev : String) (login : Answer) (held : Tokens) (e : Error)
      → (connect world c prev login held).failure ≡ some e
      → verdict_of (some (client_error e)) ≡ of_login c login
  unfolding connect connect_local authenticate_password network_error login_error verdict_of
      is_transient sentinel_is_transient wraps
  login_failed c prev (fails f) held e h = ground arith
  login_failed c prev (answers status body) held e h = ground arith

  result-resend :
      (c : GwClient) (req : Req) (con : Connected) (login second : Answer)
      → ((e : Error) → con.failure ≡ some e → verdict_of (some (client_error e)) ≡ of_login c login)
      → verdict_sent (resend world c req con second).result
        ≡ elim con.failure [ none ↦ of_answer second | some e ↦ of_login c login ]
  unfolding resend
  result-resend c req con login second h = elim (Option-cases con.failure) [
    | inl n ↦ rw n (of_answer-outcome second)
    | inr (e, f) ↦ rw f (h e f)
  ]

  of_answers-send_request :
      (c : GwClient) (call : Call) (a : Answers) (tokens : Tokens)
      → verdict_sent (send_request world c call a tokens).result ≡ of_answers c a
  unfolding send_request
  of_answers-send_request c call a tokens = elim (Bool-cases (refuses a.first)) [
    | inr e ↦ rw e (of_answer-outcome a.first)
    | inl e ↦ rw e (
        result-resend c (request_of world c call tokens)
          (connect world c (token c a.seen) a.login a.held) a.login a.second
          (login_failed c (token c a.seen) a.login a.held))
  ]

  module _ (delays : List ℕ) (durable : String) where
    process_msg_lem :
        (seq : ℕ) (v : Verdict) (expired : Bool) (retry : ℕ) (d : Dispatcher)
        → 0 < length delays
        → lookup durable d.retries ≡ none
        → ((process_msg delays durable (record { stream_seq = some seq }) v expired retry d).done
            ≡ not (is_retry v))
          × ((process_msg delays durable
                (record { stream_seq = some seq })
                v
                expired
                retry
                d).state.dura_seqs
              ≡ (if is_delivery v then insert durable seq d.dura_seqs else d.dura_seqs))
    unfolding process_msg conclude retry_or_stop
    process_msg_lem seq delivered expired retry d h n = (refl, refl)
    process_msg_lem seq permanent expired retry d h n = (refl, refl)
    process_msg_lem seq transient true retry d h n = ground arith
    process_msg_lem seq transient false retry d h n = rw n (ground arith)

    -- The dispatcher on what the client made of a message with metadata, whose durable has no
    -- earlier retry and may retry: it takes the next message unless the policy wants a retry, and
    -- it records the message as delivered just where the policy says so.
    pub process_msg-of_answers :
        (c : GwClient) (call : Call) (a : Answers) (tokens : Tokens) (seq retry : ℕ)
        → (expired : Bool) → (d : Dispatcher) → 0 < length delays
        → lookup durable d.retries ≡ none
        → ((process_msg delays durable
              (record { stream_seq = some seq })
              (verdict_sent (send_request world c call a tokens).result)
              expired
              retry
              d).done
            ≡ not (is_retry (of_answers c a)))
          × ((process_msg delays durable
                (record { stream_seq = some seq })
                (verdict_sent (send_request world c call a tokens).result)
                expired
                retry
                d).state.dura_seqs
              ≡ (if is_delivery (of_answers c a)
                  then insert durable seq d.dura_seqs
                  else d.dura_seqs))
    process_msg-of_answers c call a tokens seq retry expired d h n =
        rw (of_answers-send_request c call a tokens)
          (process_msg_lem seq (of_answers c a) expired retry d h n)
