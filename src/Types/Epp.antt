-- ===== src/Types/Epp.antt =====
-- The domain statuses of constants.go in src/internal/monitor: `EPPCode` and `eppCodeKeys`.
use domain_monitor.Base.{ℕ, List, [], ◌∷◌}
use domain_monitor.Text.{Text, codes}

abbrev pub EppCode : Type 0
EppCode = ℕ

abbrev pub unknown : EppCode
unknown = 0

abbrev pub ok : EppCode
ok = 1

abbrev pub inactive : EppCode
inactive = 2

abbrev pub client_hold : EppCode
client_hold = 3

abbrev pub server_hold : EppCode
server_hold = 4

abbrev pub client_transfer_prohibited : EppCode
client_transfer_prohibited = 5

abbrev pub server_transfer_prohibited : EppCode
server_transfer_prohibited = 6

abbrev pub client_delete_prohibited : EppCode
client_delete_prohibited = 7

abbrev pub server_delete_prohibited : EppCode
server_delete_prohibited = 8

abbrev pub client_update_prohibited : EppCode
client_update_prohibited = 9

abbrev pub server_update_prohibited : EppCode
server_update_prohibited = 10

abbrev pub client_renew_prohibited : EppCode
client_renew_prohibited = 11

abbrev pub server_renew_prohibited : EppCode
server_renew_prohibited = 12

abbrev pub pending_create : EppCode
pending_create = 13

abbrev pub pending_delete : EppCode
pending_delete = 14

abbrev pub pending_renew : EppCode
pending_renew = 15

abbrev pub pending_transfer : EppCode
pending_transfer = 16

abbrev pub pending_update : EppCode
pending_update = 17

abbrev pub redemption_period : EppCode
redemption_period = 18

abbrev pub pending_restore : EppCode
pending_restore = 19

abbrev pub add_period : EppCode
add_period = 20

abbrev pub auto_renew_period : EppCode
auto_renew_period = 21

abbrev pub renew_period : EppCode
renew_period = 22

abbrev pub transfer_period : EppCode
transfer_period = 23

abbrev pub transfer_prohibited : EppCode
transfer_prohibited = 24

abbrev pub hold : EppCode
hold = 25

unfoldable pub epp_code_keys : List Text
epp_code_keys =
    codes ""
    ∷ codes "ok"
    ∷ codes "inactive"
    ∷ codes "clienthold"
    ∷ codes "serverhold"
    ∷ codes "clienttransferprohibited"
    ∷ codes "servertransferprohibited"
    ∷ codes "clientdeleteprohibited"
    ∷ codes "serverdeleteprohibited"
    ∷ codes "clientupdateprohibited"
    ∷ codes "serverupdateprohibited"
    ∷ codes "clientrenewprohibited"
    ∷ codes "serverrenewprohibited"
    ∷ codes "pendingcreate"
    ∷ codes "pendingdelete"
    ∷ codes "pendingrenew"
    ∷ codes "pendingtransfer"
    ∷ codes "pendingupdate"
    ∷ codes "redemptionperiod"
    ∷ codes "pendingrestore"
    ∷ codes "addperiod"
    ∷ codes "autorenewperiod"
    ∷ codes "renewperiod"
    ∷ codes "transferperiod"
    ∷ codes "transferprohibited"
    ∷ codes "hold"
    ∷ []
