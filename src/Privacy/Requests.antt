-- ===== src/Privacy/Requests.antt =====
-- privacy.c: what the functions ask of the server.
use irssi_icq.Base.{
  List, [], ◌∷◌, ◌++◌, Bool, ◌&&◌, not, if◌then◌else◌, arith, ◌≡◌, refl, ap, subst, ◌∙◌, if_elim,
  false, All, ◌≢◌, sym, append-nil, All-append,
}
use irssi_icq.Privacy.{
  Text, Glib, Account, ListChange, add_permit, rem_permit, add_deny, rem_deny, Effect, request,
  blist_save, notify, serv, told, permit_add, permit_remove, deny_add, deny_remove, listed,
}

-- A call of one of the four functions.
pub record Call : Type 0 where
  pub kind : ListChange
  pub who : Text
  pub local_only : Bool

-- The function for each kind of change.
unfoldable pub change : Glib → Account → ListChange → Text → Bool → Bool × Account
change g account add_permit who local_only = permit_add g account who local_only
change g account rem_permit who local_only = permit_remove g account who local_only
change g account add_deny who local_only = deny_add g account who local_only
change g account rem_deny who local_only = deny_remove g account who local_only

unfoldable pub run_calls : Glib → Account → List Call → Account
run_calls g account [] = account
run_calls g account (c ∷ cs) = run_calls g (change g account c.kind c.who c.local_only).1 cs

-- The requests among the effects, in order.
unfoldable pub requests : List Effect → List (ListChange × Text)
requests [] = []
requests (request k who ∷ l) = (k, who) ∷ requests l
requests (blist_save ∷ l) = requests l
requests (notify k who ∷ l) = requests l

-- The request that a function makes: the removal of a permitted name is asked of the deny list.
abbrev pub asked : ListChange → ListChange
asked add_permit = add_permit
asked rem_permit = rem_deny
asked add_deny = add_deny
asked rem_deny = rem_deny

requests-append : (l l' : List Effect) → requests (l ++ l') ≡ requests l ++ requests l'
unfolding requests
requests-append [] l' = refl
requests-append (request k who ∷ l) l' = ap (◌∷◌ (k, who)) (requests-append l l')
requests-append (blist_save ∷ l) l' = requests-append l l'
requests-append (notify k who ∷ l) l' = requests-append l l'

-- What a change that is made sends.
abbrev pub sent : Account → ListChange → Text → Bool → List (ListChange × Text)
sent account k who local_only =
    if not local_only && account.connected && account.supports k then (k, who) ∷ [] else []

requests-serv :
    (account : Account) (k k' : ListChange) (who : Text) (b : Bool)
    → requests (
        (if b && account.connected then serv account k who else [])
        ++ (blist_save ∷ told account k' who))
      ≡ (if b && account.connected && account.supports k then (k, who) ∷ [] else [])
unfolding requests serv told
requests-serv account k k' who b = ground arith

sent_lem :
    (account : Account) (k k' : ListChange) (who : Text) (b : Bool)
    → requests (
        account.effects
        ++ ((if b && account.connected then serv account k who else [])
            ++ (blist_save ∷ told account k' who)))
      ≡ requests account.effects
        ++ (if b && account.connected && account.supports k then (k, who) ∷ [] else [])
sent_lem account k k' who b =
    requests-append account.effects _
    ∙ ap (◌++◌ (requests account.effects)) (requests-serv account k k' who b)

-- What a call adds to the requests.
abbrev pub Sends : Account → ListChange → Text → Bool → Bool × Account → Type 0
Sends account k who local_only (ok, account') =
    requests account'.effects
    ≡ requests account.effects ++ (if ok then sent account (asked k) who local_only else [])

unchanged :
    (account : Account) (k : ListChange) (who : Text) (local_only : Bool)
    → Sends account k who local_only (false, account)
unchanged account k who local_only = sym (append-nil (requests account.effects))

-- Each function sends its one request when it changes the list, not locally only, and the account is connected to a
-- protocol that supports it; else it sends nothing.
change-Sends :
    (g : Glib) (account : Account) (k : ListChange) (who : Text) (local_only : Bool)
    → Sends account k who local_only (change g account k who local_only)
unfolding change permit_add permit_remove deny_add deny_remove
change-Sends g account add_permit who local_only =
    if_elim (Sends account add_permit who local_only) (listed g who account.permit) _ _
      (λ e. unchanged account add_permit who local_only)
      (λ e. sent_lem account add_permit add_permit who (not local_only))
change-Sends g account rem_permit who local_only =
    if_elim (Sends account rem_permit who local_only) (listed g who account.permit) _ _
      (λ e. sent_lem account rem_deny rem_permit who (not local_only))
      (λ e. unchanged account rem_permit who local_only)
change-Sends g account add_deny who local_only =
    if_elim (Sends account add_deny who local_only) (listed g who account.deny) _ _
      (λ e. unchanged account add_deny who local_only)
      (λ e. sent_lem account add_deny add_deny who (not local_only))
change-Sends g account rem_deny who local_only =
    if_elim (Sends account rem_deny who local_only) (listed g who account.deny) _ _
      (λ e. sent_lem account rem_deny rem_deny who (not local_only))
      (λ e. unchanged account rem_deny who local_only)

-- No request to remove a permitted name.
abbrev pub Spares : List (ListChange × Text) → Type 0
Spares l = All (λ (r : ListChange × Text). r.0 ≢ rem_permit) l

asked-spares : (k : ListChange) → asked k ≢ rem_permit
asked-spares add_permit = λ e. cc
asked-spares rem_permit = λ e. cc
asked-spares add_deny = λ e. cc
asked-spares rem_deny = λ e. cc

sent-Spares :
    (account : Account) (k : ListChange) (who : Text) (local_only ok : Bool)
    → Spares (if ok then sent account (asked k) who local_only else [])
sent-Spares account k who local_only ok =
    if_elim Spares ok _ _
      (λ e.
        if_elim Spares (not local_only && account.connected && account.supports (asked k)) _ _
          (λ e'. (asked-spares k, tt)) (λ e'. tt))
      (λ e. tt)

-- The calls of the four functions, in whatever order, never ask the server to remove a name from its permit list,
-- although permit_remove removes it from the local one.
pub run_calls-Spares :
    (g : Glib) (account : Account) (calls : List Call)
    → Spares (requests account.effects)
    → Spares (requests (run_calls g account calls).effects)
unfolding run_calls
run_calls-Spares g account [] h = h
run_calls-Spares g account (c ∷ cs) h =
    let r = change g account c.kind c.who c.local_only in
    run_calls-Spares g r.1 cs (
      subst Spares (sym (change-Sends g account c.kind c.who c.local_only)) (
        All-append _ (requests account.effects) _ h
          (sent-Spares account c.kind c.who c.local_only r.0)))
