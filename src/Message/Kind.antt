-- ===== src/Message/Kind.antt =====
-- The message types of Text_Conferencing_Lab/message/message.h, as their numbers.
use Prim.Native.Nat.{ℕ}

abbrev pub login : ℕ
login = 0

abbrev pub lo_ack : ℕ
lo_ack = 1

abbrev pub lo_nak : ℕ
lo_nak = 2

abbrev pub exit : ℕ
exit = 3

abbrev pub join : ℕ
join = 4

abbrev pub jn_ack : ℕ
jn_ack = 5

abbrev pub jn_nak : ℕ
jn_nak = 6

abbrev pub leave_sess : ℕ
leave_sess = 7

abbrev pub new_sess : ℕ
new_sess = 8

abbrev pub ns_ack : ℕ
ns_ack = 9

abbrev pub message : ℕ
message = 10

abbrev pub query : ℕ
query = 11

abbrev pub qu_ack : ℕ
qu_ack = 12

abbrev pub create : ℕ
create = 13

abbrev pub rg_ack : ℕ
rg_ack = 14

abbrev pub rg_nak : ℕ
rg_nak = 15

abbrev pub kick : ℕ
kick = 16

abbrev pub ki_ack : ℕ
ki_ack = 17

abbrev pub ki_nak : ℕ
ki_nak = 18

abbrev pub ki_message : ℕ
ki_message = 19

abbrev pub promote : ℕ
promote = 20

abbrev pub pm_ack : ℕ
pm_ack = 21

abbrev pub pm_nak : ℕ
pm_nak = 22

abbrev pub pm_message : ℕ
pm_message = 23

abbrev pub sess_query : ℕ
sess_query = 24

abbrev pub sq_ack : ℕ
sq_ack = 25

abbrev pub sq_nak : ℕ
sq_nak = 26
