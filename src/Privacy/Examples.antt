-- ===== src/Privacy/Examples.antt =====
-- The theorems on the permit and deny lists at a concrete account, where glib treats ASCII text.
use irssi_icq.Base.{◌+◌, List, [], ◌∷◌, true, false, leb, ◌&&◌, if◌then◌else◌, ◌≡◌, refl, bytes_eq}
use irssi_icq.Privacy.{
  Text, Glib, Account, add_permit, rem_permit, add_deny, same, listed, normalize, without_spaces,
  utf8_strcasecmp, permit_add, permit_remove, deny_add, deny_remove,
}
use irssi_icq.Privacy.Sets.{IsClean, Adds, Removes, privacy_lem}
use irssi_icq.Privacy.Requests.{Call, run_calls, requests, Spares, run_calls-Spares}

abbrev lower : Text → Text
lower [] = []
lower (c ∷ cs) = (if leb b'A' c && leb c b'Z' then c + 32 else c) ∷ lower cs

abbrev ascii : Glib
ascii = record {
  strdown = lower;
  normal_form = λ s. s;
  validate = λ s. true;
  casefold = lower;
  collate_key = λ s. s;
}

-- The name `ab`, and `A b` as a user writes it.
abbrev ab : Text
ab = b'a' ∷ b'b' ∷ []

abbrev written : Text
written = b'A' ∷ b' ' ∷ b'b' ∷ []

abbrev cd : Text
cd = b'c' ∷ b'd' ∷ []

abbrev home : Account
home = record {
  permit = ab ∷ cd ∷ [];
  deny = [];
  connected = true;
  supports = λ k. true;
  listens = λ k. false;
  effects = [];
}

home-IsClean : IsClean ascii home
unfolding listed same utf8_strcasecmp normalize without_spaces bytes_eq
home-IsClean = ((refl, (refl, tt)), tt)

privacy_example :
    (let (ok, account') = permit_add ascii home written false in
      Adds ascii written home.permit ok account'.permit × (account'.deny ≡ home.deny))
    × (let (ok, account') = permit_remove ascii home written false in
        Removes ascii written home.permit ok account'.permit × (account'.deny ≡ home.deny))
    × (let (ok, account') = deny_add ascii home written false in
        Adds ascii written home.deny ok account'.deny × (account'.permit ≡ home.permit))
    × (let (ok, account') = deny_remove ascii home written false in
        Removes ascii written home.deny ok account'.deny × (account'.permit ≡ home.permit))
privacy_example = privacy_lem ascii home written false home-IsClean

abbrev calls : List Call
calls =
    record { kind = add_permit; who = 1 ∷ []; local_only = false }
    ∷ record { kind = rem_permit; who = written; local_only = false }
    ∷ record { kind = add_deny; who = cd; local_only = true }
    ∷ []

start-Spares : Spares (requests home.effects)
unfolding requests
start-Spares = tt

run_calls_example : Spares (requests (run_calls ascii home calls).effects)
run_calls_example = run_calls-Spares ascii home calls start-Spares
