-- ===== src/Api/Transport/Address.antt =====
-- client/pdh_api/api.py: no call changes the address of the server, and every packet goes to it,
-- whether the call returns or raises.
use mathlib.Core.List.{append_assoc, append-nil}
use pound_drever_hall.Common.{
  ◌≡◌, refl, sym, ap, ◌∙◌, inl, inr, Bool, true, false, Option, List, [], ◌∷◌, ◌++◌, Text,
  if◌then◌else◌, All, All-append, subst,
}
use pound_drever_hall.Common.Int.{ℤ}
use pound_drever_hall.Python.Result.{Error, Result, ok, err}
use pound_drever_hall.Python.Float.{Float}
use pound_drever_hall.Api.Response.{Value}
use pound_drever_hall.Api.Transport.{
  Packet, World, Outside, Api, ◌>>=◌, return, raise, lift, execute_cmd, api_cmd,
}
use pound_drever_hall.Api.Transport.Laws.{packet_of, Sends, execute_cmd-Sends}

-- A packet goes to an address.
abbrev pub IsTo : Text → ℤ → Packet → Type 0
IsTo ip port p = (p.ip ≡ ip) × (p.port ≡ port)

-- The address is kept, and what has been sent besides goes to it.
pub record Extends (w w' : World) : Type 0 where
  pub ip : w'.server_ip ≡ w.server_ip
  pub port : w'.server_port ≡ w.server_port
  pub packets : List Packet
  pub sent : w'.sent ≡ w.sent ++ packets
  pub address : All (IsTo w.server_ip w.server_port) packets

-- A call keeps the address, whether it returns or raises.
pub record Keeps {A : Type 0} (m : Api A) : Type 0 where
  pub extends : (w : World) → Extends w (m w).1

pub Extends-same :
    (w w' : World)
    → w'.sent ≡ w.sent
    → w'.server_ip ≡ w.server_ip
    → w'.server_port ≡ w.server_port
    → Extends w w'
Extends-same w w' sent ip port = record {
  ip = ip;
  port = port;
  packets = [];
  sent = sent ∙ sym (append-nil w.sent);
  address = tt;
}

Extends-trans : {u v w : World} → Extends u v → Extends v w → Extends u w
Extends-trans {u} {v} {w} e f = record {
  ip = f.ip ∙ e.ip;
  port = f.port ∙ e.port;
  packets = e.packets ++ f.packets;
  sent = f.sent ∙ ap (λ l. l ++ f.packets) e.sent ∙ append_assoc u.sent e.packets f.packets;
  address = All-append _ e.packets f.packets e.address (
      subst (λ i. All (IsTo i u.server_port) f.packets) e.ip
        (subst (λ k. All (IsTo v.server_ip k) f.packets) e.port f.address));
}

pub Keeps-lift : {A : Type 0} (r : Result A) → Keeps (lift r)
Keeps-lift r = record { extends = λ w. Extends-same w w refl refl refl }

pub Keeps-return : {A : Type 0} (a : A) → Keeps (return a)
Keeps-return a = record { extends = λ w. Extends-same w w refl refl refl }

pub Keeps-raise : (A : Type 0) (e : Error) → Keeps (raise {A = A} e)
Keeps-raise A e = record { extends = λ w. Extends-same w w refl refl refl }

bind-Extends :
    {A B : Type 0} (w : World) (p : Result A × World) (f : A → Api B)
    → Extends w p.1
    → ((a : A) → Keeps (f a))
    → Extends w (◌>>=◌ (λ _. p) f w).1
bind-Extends w (ok a, v) f e keeps = Extends-trans e ((keeps a).extends v)
bind-Extends w (err x, v) f e keeps = e

pub >>=-Keeps :
    {A B : Type 0} (m : Api A) (f : A → Api B) → Keeps m → ((a : A) → Keeps (f a)) → Keeps (m >>= f)
>>=-Keeps m f keeps rest = record { extends = λ w. bind-Extends w (m w) f (keeps.extends w) rest }

-- What a call returns is only built into something else.
pub map-Keeps : {A B : Type 0} (m : Api A) (f : A → B) → Keeps m → Keeps (m >>= λ a. return (f a))
map-Keeps m f keeps = >>=-Keeps m (λ a. return (f a)) keeps (λ a. Keeps-return (f a))

pub if-Keeps :
    {A : Type 0} (b : Bool) (m n : Api A) → Keeps m → Keeps n → Keeps (if b then m else n)
if-Keeps true m n h k = h
if-Keeps false m n h k = k

Sends-Extends : (cmd : Text) (w w' : World) → Sends cmd w w' → Extends w w'
Sends-Extends cmd w w' (inl e) =
    Extends-same w w' (ap (λ x. x.sent) e) (ap (λ x. x.server_ip) e) (ap (λ x. x.server_port) e)
Sends-Extends cmd w w' (inr e) = record {
  ip = ap (λ x. x.server_ip) e;
  port = ap (λ x. x.server_port) e;
  packets = packet_of w cmd ∷ [];
  sent = ap (λ x. x.sent) e;
  address = ((refl, refl), tt);
}

module _ {F : Type 0} ⦃fl : Float F⦄ (out : Outside F) where
  pub execute_cmd-Keeps : (cmd : Text) → Keeps (execute_cmd out cmd)
  execute_cmd-Keeps cmd = record {
    extends = λ w. Sends-Extends cmd w _ (execute_cmd-Sends out cmd w);
  }

pub api_cmd-Keeps :
    {F R : Type 0} ⦃fl : Float F⦄ (name : Text) (status : R → Option (Value F)) (fn : Api R)
    → Keeps fn
    → Keeps (api_cmd name status fn)
unfolding api_cmd
api_cmd-Keeps name status fn keeps = record { extends = λ w. keeps.extends w }
