-- ===== src/Api/Transport/Laws.antt =====
-- What one command does to the world, and when the decorator lets a result through.
use pound_drever_hall.Common.{
  ◌≡◌, refl, ap, sym, ◌∙◌, ◌⊎◌, inl, inr, ◌↔◌, true, Option, some, [], ◌∷◌, ◌++◌, Text, arith,
  Bool-cases,
}
use pound_drever_hall.Python.Result.{Result, ok, err}
use pound_drever_hall.Python.Float.{Float}
use pound_drever_hall.Api.Response.{Value, Response, is_zero}
use pound_drever_hall.Api.Transport.{
  World, Packet, Outside, Api, execute_cmd, ◌>>=◌, return, check_status, api_cmd,
}

-- The packet that carries a command to the server that the globals name.
abbrev pub packet_of : World → Text → Packet
packet_of w cmd = record { ip = w.server_ip; port = w.server_port; payload = cmd }

-- One command more has gone to the server that the globals name.
abbrev pub Sent : World → Text → World → Type 0
Sent w cmd w' =
    (w'.sent ≡ w.sent ++ (packet_of w cmd ∷ []))
    × (w'.server_ip ≡ w.server_ip)
    × (w'.server_port ≡ w.server_port)

-- The call sends nothing, or it sends the command once; it does nothing else to the world.
abbrev pub Sends : Text → World → World → Type 0
Sends cmd w w' = (w' ≡ w) ⊎ (w' ≡ record w { sent = w.sent ++ (packet_of w cmd ∷ []) })

module _ {F : Type 0} ⦃fl : Float F⦄ (out : Outside F) where
  -- Whatever happens to a command, the world is afterwards as it was, or the command has been sent
  -- once, to the server that the globals name.
  pub execute_cmd-Sends : (cmd : Text) (w : World) → Sends cmd w (execute_cmd out cmd w).1
  unfolding execute_cmd
  execute_cmd-Sends cmd w = grind arith

  pub execute_cmd-ok_sent :
      (cmd : Text) (w : World) {r : Response F} {w' : World}
      → execute_cmd out cmd w ≡ (ok r, w')
      → w' ≡ record w { sent = w.sent ++ (packet_of w cmd ∷ []) }
  unfolding execute_cmd
  execute_cmd-ok_sent cmd w h = ground arith

pub ok-injective : {A : Type 0} {a b : A} → ok a ≡ ok b → a ≡ b
ok-injective h = cc

bind-ok :
    {A B : Type 0} (p : Result A × World) (f : A → Api B) {b : B} {w' : World}
    → ◌>>=◌ {A = A} (λ _. p) f p.1 ≡ (ok b, w')
    → (a : A) × (p.0 ≡ ok a) × (f a p.1 ≡ (ok b, w'))
bind-ok (ok a, w) f h = (a, refl, h)
bind-ok (err e, w) f h = cc

-- A bind that returns has run both its parts.
pub >>=-eq-ok :
    {A B : Type 0} (m : Api A) (f : A → Api B) (w : World) {b : B} {w' : World}
    → (m >>= f) w ≡ (ok b, w')
    → (a : A) × (v : World) × (m w ≡ (ok a, v)) × (f a v ≡ (ok b, w'))
>>=-eq-ok m f w h = let (a, e, g) = bind-ok (m w) f h in (a, (m w).1, (λ i. (e i, (m w).1)), g)

-- A bind whose first part returns goes on with its second.
pub >>=-at-ok :
    {A B : Type 0} (m : Api A) (f : A → Api B) (w : World) {a : A} {v : World}
    → m w ≡ (ok a, v)
    → (m >>= f) w ≡ f a v
>>=-at-ok m f w e = ap (λ p. ◌>>=◌ (λ _. p) f w) e

-- A bind that ends with a value that is already there.
pub >>=-eq-return :
    {A B : Type 0} (m : Api A) (b : B) (w : World) {c : B} {w' : World}
    → (m >>= λ _. return b) w ≡ (ok c, w')
    → (a : A) × (m w ≡ (ok a, w')) × (b ≡ c)
>>=-eq-return m b w {c} {w'} h =
    let (a, v, e, g) = >>=-eq-ok m (λ _. return b) w h in
    let end : v ≡ w' = ap (λ p. p.1) g in
    (a, e ∙ (λ i. (ok a, end i)), ok-injective (ap (λ p. p.0) g))

module _ {F R : Type 0} ⦃fl : Float F⦄ (name : Text) (status : R → Value F) where
  abbrev has_status : R → Option (Value F)
  has_status x = some (status x)

  check_status-ok :
      (result : Result R) (r : R)
      → check_status name has_status result ≡ ok r
      → (result ≡ ok r) × (is_zero (status r) ≡ true)
  unfolding check_status
  check_status-ok (err e) r h = cc
  check_status-ok (ok x) r h = elim (Bool-cases (is_zero (status x))) [
    | inl zero ↦
        let same : ok x ≡ ok r = rw zero at h in let e : x ≡ r = cc in (same, rw (← e) zero)
    | inr other ↦ cc (rw other at h)
  ]

  -- A decorated call returns a result exactly if the call under it returns that result and the
  -- status of the result is zero.
  pub api_cmd-ok_iff :
      (fn : Api R) (w : World) (r : R)
      → ((api_cmd name has_status fn w).0 ≡ ok r)
        ↔ (((fn w).0 ≡ ok r) × (is_zero (status r) ≡ true))
  unfolding api_cmd check_status
  api_cmd-ok_iff fn w r = (check_status-ok (fn w).0 r, λ h. rw (h.0) (rw (h.1)))

  pub api_cmd-world : (fn : Api R) (w : World) → (api_cmd name has_status fn w).1 ≡ (fn w).1
  unfolding api_cmd
  api_cmd-world fn w = refl

  -- A decorated call that returns: the call under it has returned the same, with a status of zero.
  pub api_cmd-eq-ok :
      (fn : Api R) (w : World) {x : R} {w' : World}
      → api_cmd name has_status fn w ≡ (ok x, w')
      → (fn w ≡ (ok x, w')) × (is_zero (status x) ≡ true)
  api_cmd-eq-ok fn w {x} h =
      let (result, zero) = (api_cmd-ok_iff fn w x).0 (ap (λ p. p.0) h) in
      let world = sym (api_cmd-world fn w) ∙ ap (λ p. p.1) h in ((λ i. (result i, world i)), zero)

  abbrev pub register_call : Outside F → Text → (Response F → R) → Api R
  register_call out cmd build = execute_cmd out cmd >>= λ r. return (build r)

  -- A register command that returns has sent its text once, and no more, to the server that the
  -- globals name, and what it returns is built from an answer whose status is zero.
  pub register_call-ok :
      (out : Outside F) (cmd : Text) (build : Response F → R) (w : World) {x : R} {w' : World}
      → api_cmd name has_status (register_call out cmd build) w ≡ (ok x, w')
      → (is_zero (status x) ≡ true)
        × (w' ≡ record w { sent = w.sent ++ (packet_of w cmd ∷ []) })
        × ((r : Response F) × (x ≡ build r))
  register_call-ok out cmd build w {x} {w'} h =
      let (call, zero) = api_cmd-eq-ok (register_call out cmd build) w h in
      let (r, v, sent, built) = >>=-eq-ok (execute_cmd out cmd) (λ r. return (build r)) w call in
      let same : v ≡ w' = ap (λ p. p.1) built in
      let made : ok (build r) ≡ ok x = ap (λ p. p.0) built in
      (zero, sym same ∙ execute_cmd-ok_sent out cmd w sent, (r, cc))
