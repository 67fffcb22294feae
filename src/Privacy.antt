-- ===== src/Privacy.antt =====
-- irssi-icq/src/gaimglue/privacy.c: the permit and deny lists of an account, with normalize and gaim_utf8_strcasecmp
-- of util.c and the requests of server.c (serv_add_permit and the three beside it). The functions of glib on text are
-- the parameters of Glib. Names are not NULL, shorter than the buffer of normalize by two characters, and lists of the
-- bytes before the NUL; an account is not NULL. What the functions cause outside the account is the list `effects`.
pub mod Sets
pub mod Requests
mod Examples
use irssi_icq.Base.{
  ℕ, ◌-◌, ◌==◌, List, [], ◌∷◌, ◌++◌, Bool, true, false, ◌&&◌, not, if◌then◌else◌, take, bytes_eq,
}

abbrev pub Text : Type 0
Text = List ℕ

-- g_utf8_strdown, g_utf8_normalize, g_utf8_validate, g_utf8_casefold, and the keys of g_utf8_collate, which returns 0
-- exactly when they are equal.
pub record Glib : Type 0 where
  pub strdown : Text → Text
  pub normal_form : Text → Text
  pub validate : Text → Bool
  pub casefold : Text → Text
  pub collate_key : Text → Text

pub data ListChange : Type 0 where
  add_permit rem_permit add_deny rem_deny : ListChange

-- A call of the protocol's function, the saving of the buddy list, and a call of the user interface.
pub data Effect : Type 0 where
  request : ListChange → Text → Effect
  blist_save : Effect
  notify : ListChange → Text → Effect

-- `connected` is gaim_account_is_connected. `supports` says that the connection is in the list of connections and that
-- its protocol has a function for the request, `listens` that the user interface has one for the change.
pub record Account : Type 0 where
  pub permit : List Text
  pub deny : List Text
  pub connected : Bool
  pub supports : ListChange → Bool
  pub listens : ListChange → Bool
  pub effects : List Effect

abbrev buf_len : ℕ
buf_len = 2048

-- The loop of normalize, which drops the spaces.
unfoldable pub without_spaces : Text → Text
without_spaces [] = []
without_spaces (c ∷ cs) = if c == b' ' then without_spaces cs else c ∷ without_spaces cs

unfoldable pub normalize : Glib → Text → Text
unfolding without_spaces
normalize g s =
    let tmp = take (buf_len - 1) (g.strdown (without_spaces s)) in
    take (buf_len - 1) (g.normal_form tmp)

-- Whether the result is 0.
unfoldable pub utf8_strcasecmp : Glib → Text → Text → Bool
utf8_strcasecmp g a b =
    g.validate a
    && (g.validate b && bytes_eq (g.collate_key (g.casefold a)) (g.collate_key (g.casefold b)))

-- The test of the loops.
unfoldable pub same : Glib → Text → Text → Bool
unfolding utf8_strcasecmp normalize
same g who x = utf8_strcasecmp g (normalize g who) (normalize g x)

-- Whether the loop breaks before the end.
unfoldable pub listed : Glib → Text → List Text → Bool
unfolding same
listed g who [] = false
listed g who (x ∷ l) = if same g who x then true else listed g who l

-- The list without the element at which the loop breaks.
unfoldable pub unlisted : Glib → Text → List Text → List Text
unfolding same
unlisted g who [] = []
unlisted g who (x ∷ l) = if same g who x then l else x ∷ unlisted g who l

-- serv_add_permit, serv_add_deny, serv_rem_permit and serv_rem_deny
unfoldable pub serv : Account → ListChange → Text → List Effect
serv account k name = if account.supports k then request k name ∷ [] else []

-- The user interface's function, if there is one.
unfoldable pub told : Account → ListChange → Text → List Effect
told account k who = if account.listens k then notify k who ∷ [] else []

unfoldable pub permit_add : Glib → Account → Text → Bool → Bool × Account
unfolding listed serv told
permit_add g account who local_only = if listed g who account.permit then (false, account) else (
  true,
  record account {
    permit = account.permit ++ (who ∷ []);
    effects =
        account.effects
        ++ ((if not local_only && account.connected then serv account add_permit who else [])
            ++ (blist_save ∷ told account add_permit who));
  },
)

-- The source asks for the removal from the deny list.
unfoldable pub permit_remove : Glib → Account → Text → Bool → Bool × Account
unfolding listed unlisted serv told
permit_remove g account who local_only =
    if listed g who account.permit
    then (
      true,
      record account {
        permit = unlisted g who account.permit;
        effects =
            account.effects
            ++ ((if not local_only && account.connected then serv account rem_deny who else [])
                ++ (blist_save ∷ told account rem_permit who));
      },
    )
    else (false, account)

unfoldable pub deny_add : Glib → Account → Text → Bool → Bool × Account
unfolding listed serv told
deny_add g account who local_only = if listed g who account.deny then (false, account) else (
  true,
  record account {
    deny = account.deny ++ (who ∷ []);
    effects =
        account.effects
        ++ ((if not local_only && account.connected then serv account add_deny who else [])
            ++ (blist_save ∷ told account add_deny who));
  },
)

unfoldable pub deny_remove : Glib → Account → Text → Bool → Bool × Account
unfolding listed unlisted serv told
deny_remove g account who local_only =
    if listed g who account.deny
    then (
      true,
      record account {
        deny = unlisted g who account.deny;
        effects =
            account.effects
            ++ ((if not local_only && account.connected then serv account rem_deny who else [])
                ++ (blist_save ∷ told account rem_deny who));
      },
    )
    else (false, account)
