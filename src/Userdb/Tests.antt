-- ===== src/Userdb/Tests.antt =====
-- users.dat of userdb/userdb.c with two accounts, one of them burned.
use under_flow.Base.{refl, true, [], ◌∷◌}
use under_flow.Base.Int.{ℤ, pos, negsuc}
use under_flow.Base.Text.{Text}
use under_flow.Userdb.{UserRecord, Userdb, zero_record}
use under_flow.Userdb.Burn.{Change, apply_all, BurnedAt, burned_forever}

abbrev ada : Text
ada = 0x61 ∷ []

abbrev bob : Text
bob = 0x62 ∷ []

abbrev eve : Text
eve = 0x65 ∷ []

abbrev account : Text → ℤ → UserRecord
account key money = record zero_record { key = key; money = money }

abbrev two_users : Userdb
two_users = record {
  openable = true;
  writable = true;
  records = account ada (negsuc 0) ∷ account bob (pos 1000) ∷ [];
}

burned_forever_example :
    BurnedAt 0 (apply_all (Change.reset (pos 1000) ∷ Change.burn 1 ∷ []) two_users).records
burned_forever_example =
    burned_forever 0 (Change.reset (pos 1000) ∷ Change.burn 1 ∷ []) two_users refl
