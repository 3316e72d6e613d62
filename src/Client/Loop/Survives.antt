-- ===== src/Client/Loop/Survives.antt =====
-- A raid from its packet to the answer: the client of src/client/ui_client.c shows the passcode, sends what is
-- typed, and src/server/server_main.c takes it.
use under_flow.Base.{◌-◌, List}
use under_flow.Base.Text.{Text, strncpy}
use under_flow.Protocol.{max_text_len}
use under_flow.Server.{Server}
use under_flow.Client.Loop.{Loop}

-- The passcode as it is kept and sent.
abbrev pub cut : Text → Text
cut passcode = strncpy (max_text_len - 1) passcode
