-- ===== src/Ssi/Ack/Refused.antt =====
-- ssi.c: parseack where the server has refused the additions that aim_ssi_sync asked for.
use irssi_icq.Base.{List, ◌≡◌, ℕ, [], ◌==◌, false, ◌<◌, ◌^◌}
use irssi_icq.Bstream.{Bstream}
use irssi_icq.Bstream.View.{pending}
use irssi_icq.Ssi.{Item}
use irssi_icq.Ssi.Sync.{Store}
use irssi_icq.Ssi.Ack.Common.{spared}

-- A code of sixteen bits that is neither success nor the mark of a change without an outcome.
abbrev pub IsRefusal : ℕ → Type 0
IsRefusal code = (code < 2 ^ 16) × ((code == 0) ≡ false) × ((code == 0xffff) ≡ false)

-- The stored information once the additions of the items are taken back.
abbrev pub taken_back : Store → List Item → Store
taken_back s xs = record s { local = spared xs s.local; pending = []; waiting_for_ack = false }
