-- ===== src/Sockets/SelectClient/Session.antt =====
-- The whole of `main` of 00-network-programming/examples/select_client.c.
use linux_system_programming.Prelude.{
  ℕ, zero, suc, ◌<◌, ◌≡◌, ◌≢◌, refl, sym, subst, ◌∙◌, Bool, false, Option, none, some, List, [],
  ◌∷◌, ◌++◌, arith, ltb, ◌==◌, ℤ, pos, length, append_assoc, append-nil,
}
use linux_system_programming.Kernel.{
  inet, stream, socket, connect, close, Reply, ret, Event, done, logged,
}
use linux_system_programming.Transfers.Print.{until_nul}
use linux_system_programming.Sockets.Text.{NoNul}
use linux_system_programming.Chat.Client.Connect.{Tcpcon, as_ushort, inet6_addrstrlen}
use linux_system_programming.Sockets.SelectClient.{
  strncpy, tcpinfo_init, string_in, ended, no_string, prefix, input_loop, leave, session, main,
}

not_nul : (c : ℕ) → c ≢ 0 → (c == 0) ≡ false
not_nul c h = ground (arith, h)

string_in-strncpy :
    (n : ℕ) (text : List ℕ) → NoNul text → length text < n → string_in (strncpy n text) ≡ some text
unfolding strncpy
string_in-strncpy zero text h lt = absurd (omega (arith, lt))
string_in-strncpy (suc n) [] h lt = refl
string_in-strncpy (suc n) (c ∷ text) h lt =
    let rest = string_in-strncpy n text h.1 (omega (arith, lt)) in rw (rest, not_nul c h.0) refl

string_in-strncpy_full :
    (text : List ℕ) → NoNul text → string_in (strncpy (length text) text) ≡ none
unfolding strncpy
string_in-strncpy_full [] h = refl
string_in-strncpy_full (c ∷ text) h = rw (string_in-strncpy_full text h.1, not_nul c h.0) refl

-- Each line of stdin behind its prefix.
abbrev pub echoed : List (List ℕ) → List ℕ
echoed [] = []
echoed (input ∷ inputs) = (prefix ++ until_nul input) ++ echoed inputs

input_loop-echoed :
    (inputs : List (List ℕ)) (out : List ℕ) → input_loop inputs out ≡ out ++ echoed inputs
unfolding input_loop
input_loop-echoed [] out = sym (append-nil out)
input_loop-echoed (input ∷ inputs) out =
    input_loop-echoed inputs (out ++ (prefix ++ until_nul input))
    ∙ append_assoc out (prefix ++ until_nul input) (echoed inputs)

module _ (htons : ℕ → ℕ) (inet_pton : List ℕ → Option ℕ) (atoi : List ℕ → ℤ) (con : Tcpcon) where
  -- With an address of less than INET6_ADDRSTRLEN bytes that inet_pton takes, and a connection, `main`
  -- prints each line of stdin up to its first NUL, closes its socket and returns 0.
  pub main-echoed :
      (name ip port : List ℕ) (host sd n : ℕ) (bytes b : List ℕ) (closed : Reply)
      (replies : List Reply) (log : List Event) (inputs : List (List ℕ))
      → NoNul ip
      → length ip < inet6_addrstrlen
      → inet_pton ip ≡ some host
      → main htons inet_pton atoi con
          (name ∷ ip ∷ port ∷ [])
          inputs
          false
          (ret sd bytes ∷ ret n b ∷ closed ∷ replies)
          log
        ≡ done (ended 0 (echoed inputs)) replies (
            logged (close (pos sd)) closed (
              logged
                (connect
                  (pos sd)
                  (record { family = inet; host = host; port = htons (as_ushort (atoi port)) }))
                (ret n b)
                (logged (socket inet stream) (ret sd bytes) log)))
  unfolding main session leave
  main-echoed name ip port host sd n bytes b closed replies log inputs text lt reads =
      let fits : ltb inet6_addrstrlen (length ip) ≡ false = ground (arith, lt) in
      rw
        (
          fits,
          tcpinfo_init,
          string_in-strncpy inet6_addrstrlen ip text lt,
          reads,
          input_loop-echoed inputs [],
        )
        refl

  -- An address of just INET6_ADDRSTRLEN bytes passes the test of `main`, but inet_pton gets an array
  -- with no NUL in it.
  pub main-no_string :
      (name ip port : List ℕ) (replies : List Reply) (log : List Event) (inputs : List (List ℕ))
      (is_error : Bool)
      → NoNul ip
      → length ip ≡ inet6_addrstrlen
      → main htons inet_pton atoi con (name ∷ ip ∷ port ∷ []) inputs is_error replies log
        ≡ done no_string replies log
  unfolding main session
  main-no_string name ip port replies log inputs is_error text e =
      let fits : ltb inet6_addrstrlen (length ip) ≡ false = ground (arith, e) in
      let full : string_in (strncpy inet6_addrstrlen ip) ≡ none =
        subst (λ n. string_in (strncpy n ip) ≡ none) e (string_in-strncpy_full ip text) in
      rw (fits, tcpinfo_init, full) refl
