-- ===== src/Dispatch.antt =====
-- irssi-icq/src/protocols/oscar/rxhandlers.c: the handlers of a connection, the modules, and what
-- becomes of a frame that arrived. The functions that modules and clients register are parameters: `accept` is
-- the SNAC handler of a module, which reads the stream of the frame, and `call` the
-- client's function for a handler, which may do so too. `World` is all that they change besides: it has the
-- connections. They leave the queue of the frames and the list of the modules alone. A result of
-- theirs is kept in `handled`, which has 8 bits. Printing for the debugger is not modelled.
pub mod Handlers
pub mod Left
mod Examples
use irssi_icq.Base.{
  ℕ, zero, suc, ◌+◌, ◌-◌, ◌%◌, ◌/◌, ◌^◌, List, [], ◌∷◌, ◌++◌, Option, none, some, Bool, true, false,
  ltb, ◌==◌, ◌&&◌, if◌then◌else◌, length, bytes_eq, not,
}
use irssi_icq.Bstream
use irssi_icq.Bstream.{Bstream}
use irssi_icq.Tlv.{Tlv, readtlvchain, gettlv, gettlv16, gettlv_str}
use irssi_icq.Flap.{Handler, Conn, Frame, frametype_flap}
use irssi_icq.Flap.Queue.{purge}

pub record Module : Type 0 where
  pub family : ℕ
  pub flags : ℕ
  pub name : List ℕ

pub record Modsnac : Type 0 where
  pub family : ℕ
  pub subtype : ℕ
  pub flags : ℕ
  pub id : ℕ

abbrev pub fam_special : ℕ
fam_special = 0xffff

abbrev pub special_default : ℕ
special_default = 0xffff

abbrev pub special_flapver : ℕ
special_flapver = 0x0005

abbrev pub special_connerr : ℕ
special_connerr = 0x0003

abbrev pub type_auth : ℕ
type_auth = 0x0007

unfoldable pub findmodulebygroup : List Module → ℕ → Option Module
findmodulebygroup [] group = none
findmodulebygroup (cur ∷ rest) group =
    if cur.family == group then some cur else findmodulebygroup rest group

unfoldable pub findmodule : List Module → List ℕ → Option Module
findmodule [] name = none
findmodule (cur ∷ rest) name = if bytes_eq name cur.name then some cur else findmodule rest name

-- The module is what `modfirst` filled, `none` where it failed. Whether there was no error, and the
-- list.
unfoldable pub registermodule : List Module → Option Module → Bool × List Module
unfolding findmodule
registermodule modlist none = (false, modlist)
registermodule modlist (some mod') = elim (findmodule modlist mod'.name) [
  | some found ↦ (false, modlist)
  | none ↦ (true, mod' ∷ modlist)
]

-- The client's function of a new handler is not NULL.
unfoldable pub addhandler : List Handler → ℕ → ℕ → ℕ → ℕ → List Handler
addhandler [] family type newhandler flags =
    record { family = family; type = type; handler = newhandler; flags = flags } ∷ []
addhandler (cur ∷ rest) family type newhandler flags =
    cur ∷ addhandler rest family type newhandler flags

unfoldable pub conn_addhandler : Conn → ℕ → ℕ → ℕ → ℕ → Conn
unfolding addhandler
conn_addhandler conn family type newhandler flags = record conn {
  handlerlist = addhandler conn.handlerlist family type newhandler flags;
}

unfoldable pub clone_loop : Conn → List Handler → Conn
unfolding conn_addhandler
clone_loop dest [] = dest
clone_loop dest (cur ∷ rest) =
    clone_loop (conn_addhandler dest cur.family cur.type cur.handler cur.flags) rest

unfoldable pub clonehandlers : Conn → Conn → Conn
unfolding clone_loop
clonehandlers dest src = clone_loop dest src.handlerlist

-- The loop of aim_callhandler.
unfoldable pub find_handler : List Handler → ℕ → ℕ → Option ℕ
find_handler [] family type = none
find_handler (cur ∷ rest) family type =
    if cur.family == family && cur.type == type
    then some cur.handler
    else find_handler rest family type

-- The call for the default of the family has no handler at its end, so that it returns NULL.
unfoldable pub callhandler : Conn → ℕ → ℕ → Option ℕ
unfolding find_handler
callhandler conn family type = elim (find_handler conn.handlerlist family type) [
  | some handler ↦ some handler
  | none ↦
      if type == special_default then none else find_handler conn.handlerlist family special_default
]

module _ {World : Type 0} (conns : World → ℕ → Conn)
    (accept : Module → Modsnac → Bstream → World → ℕ × Bstream × World) where
  -- The loop of consumesnac and of consumenonsnac.
  unfoldable pub offer : List Module → Modsnac → Bstream → World → ℕ × Bstream × World
  offer [] snac bs w = (0, bs, w)
  offer (cur ∷ rest) snac bs w = elim (cur.flags % 2 == 0 && not (cur.family == snac.family)) [
    | true ↦ offer rest snac bs w
    | false ↦
        (let (ret, bs', w') = accept cur snac bs w in
          elim (ret == 0) [ true ↦ offer rest snac bs' w' | false ↦ (1, bs', w') ])
  ]

  unfoldable pub consumesnac : List Module → Bstream → World → ℕ × Bstream × World
  unfolding offer
  consumesnac modlist bs w =
      if ltb (Bstream.empty bs) 10
      then (0, bs, w)
      else (let (family, s1) = Bstream.get16 bs in
          let (subtype, s2) = Bstream.get16 s1 in
          let (flags, s3) = Bstream.get16 s2 in
          let (id, s4) = Bstream.get32 s3 in
          let snac : Modsnac = record {
            family = family;
            subtype = subtype;
            flags = flags;
            id = id;
          } in
          let s6 : Bstream =
            if flags / 0x8000 % 2 == 1
            then (let (n, s5) = Bstream.get16 s4 in (Bstream.advance s5 n).1)
            else s4 in
          offer modlist snac s6 w)

  unfoldable pub consumenonsnac : List Module → Bstream → ℕ → ℕ → World → ℕ × Bstream × World
  unfolding offer
  consumenonsnac modlist bs family subtype w =
      offer modlist (record { family = family; subtype = subtype; flags = 0; id = 0 }) bs w

  module _ (call : ℕ → Frame → World → ℕ × Bstream × World)
      (connerr : ℕ → Frame → ℕ → Option (List ℕ) → World → ℕ × Bstream × World) where
    unfoldable pub callhandler_noparam : Frame → ℕ → ℕ → World → ℕ × Bstream × World
    unfolding callhandler
    callhandler_noparam fr family type w = elim (callhandler (conns w fr.conn) family type) [
      | some userfunc ↦ call userfunc fr w
      | none ↦ (1, fr.payload, w)
    ]

    -- The part of negchan_middle behind aim_readtlvchain. The code is `none` where aim_gettlv16 reads
    -- behind the end of a value, which C leaves undefined.
    unfoldable pub negchan_report : List Tlv → Frame → World → Option (ℕ × Bstream × World)
    unfolding callhandler
    negchan_report tlvlist fr w =
        let code : Option ℕ = elim (gettlv tlvlist 0x0009 1) [
          | none ↦ some 0
          | some t ↦ gettlv16 tlvlist 0x0009 1
        ] in
        let msg : Option (List ℕ) = elim (gettlv tlvlist 0x000b 1) [
          | none ↦ none
          | some t ↦ gettlv_str tlvlist 0x000b 1
        ] in
        elim code [
          | none ↦ none
          | some v ↦ elim (callhandler (conns w fr.conn) fam_special special_connerr) [
            | some userfunc ↦ some (connerr userfunc fr v msg w)
            | none ↦ some (1, fr.payload, w)
          ]
        ]

    -- The fuel of aim_readtlvchain is the number of bytes; it is enough where the loop ends.
    unfoldable pub negchan_middle : List Module → Frame → World → Option (ℕ × Bstream × World)
    unfolding consumenonsnac negchan_report
    negchan_middle modlist fr w =
        if Bstream.empty fr.payload == 0
        then some (1, fr.payload, w)
        else if (conns w fr.conn).type == type_auth
        then some (consumenonsnac modlist fr.payload 0x0017 0x0003 w)
        else (elim (readtlvchain (Bstream.empty fr.payload) fr.payload) [
          | none ↦ none
          | some (tlvlist, bs) ↦ negchan_report tlvlist (record fr { payload = bs }) w
        ])

    -- `cur->handled = ret`, in 8 bits.
    abbrev pub mark : Frame → ℕ × Bstream × World → Frame × World
    mark fr (ret, bs, w) = (record fr { handled = ret % 2 ^ 8; payload = bs }, w)

    -- `if (!cur->handled)`, at the end of a round.
    unfoldable pub last_chance : List Module → Frame × World → Frame × World
    unfolding consumenonsnac
    last_chance modlist (cur, w) =
        if cur.handled == 0
        then (let (ret, bs, w') = consumenonsnac modlist cur.payload 0xffff 0xffff w in
            (record cur { handled = 1; payload = bs }, w'))
        else (cur, w)

    unfoldable pub dispatch_flap : List Module → Frame → World → Option (Frame × World)
    unfolding callhandler_noparam consumesnac negchan_middle last_chance
    dispatch_flap modlist cur w =
        if cur.type == 0x01
        then some (mark cur (callhandler_noparam cur fam_special special_flapver w))
        else if cur.type == 0x02
        then some (last_chance modlist (mark cur (consumesnac modlist cur.payload w)))
        else if cur.type == 0x04
        then (elim (negchan_middle modlist cur w) [ none ↦ none | some r ↦ some (mark cur r) ])
        else some (last_chance modlist (cur, w))

    -- A round of the loop of aim_rxdispatch on a frame that is not of the type AIM_FRAMETYPE_OFT.
    unfoldable pub dispatch_one : List Module → Frame → World → Option (Frame × World)
    unfolding dispatch_flap last_chance
    dispatch_one modlist cur w =
        if not (cur.handled == 0)
        then some (cur, w)
        else if cur.hdrtype == frametype_flap
        then dispatch_flap modlist cur w
        else some (last_chance modlist (cur, w))

    unfoldable pub dispatch_loop : List Module → List Frame → World → Option (List Frame × World)
    unfolding dispatch_one
    dispatch_loop modlist [] w = some ([], w)
    dispatch_loop modlist (cur ∷ rest) w = elim (dispatch_one modlist cur w) [
      | none ↦ none
      | some (cur', w') ↦ elim (dispatch_loop modlist rest w') [
        | none ↦ none
        | some (rest', w'') ↦ some (cur' ∷ rest', w'')
      ]
    ]

    -- On the queue of incoming frames.
    unfoldable pub rxdispatch : List Module → List Frame → World → Option (List Frame × World)
    unfolding dispatch_loop purge
    rxdispatch modlist queue_incoming w = elim (dispatch_loop modlist queue_incoming w) [
      | none ↦ none
      | some (frs, w') ↦ some (purge frs, w')
    ]
