-- ===== src/Msgqueue/Unsent.antt =====
-- nn_msgqueue_send of src/transports/inproc/msgqueue.c, with the messages of src/utils/msg.c.
use nanomsg_copy.Chunk.{Heap}
use nanomsg_copy.Msg.{Msg}
use nanomsg_copy.Msg as Message
use nanomsg_copy.Msgqueue.{Msgqueue, MsgOps}

-- A slot that a message is moved to is overwritten.
abbrev pub msg_ops : Heap → MsgOps Msg
msg_ops h = record { size = Message.sizes h; mv = λ m. Message.mv m m }
