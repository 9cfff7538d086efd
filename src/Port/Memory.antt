-- ===== src/Port/Memory.antt =====
-- Ports over a block of memory: `diag_port_new_bm` and the functions `*_bm` of src/port.c.
pub mod Laws
use diagonal.Base.{
  ℕ, ◌+◌, ◌≤◌, ◌<◌, ◌^◌, List, ◌++◌, ltb, leb, if◌then◌else◌, length, get_or, set, take, drop,
}
use diagonal.Base.Slices.{slice, overwrite}
use diagonal.Base.Word.{add_size, sub_size}
use diagonal.Port.{Status, done, short, Reader}

-- `head` is the block, and its length is `stream.bm.size`.
pub record MemoryPort : Type 0 where
  pub head : List ℕ
  pub i_pos : ℕ
  pub o_pos : ℕ

abbrev pub size : MemoryPort → ℕ
size port = length port.head

unfoldable pub new_bm : List ℕ → MemoryPort
new_bm head = record { head = head; i_pos = 0; o_pos = 0 }

-- The byte is 0 where `*i` is not written.
pub read_byte_bm : MemoryPort → Status × ℕ × MemoryPort
read_byte_bm port =
    if ltb port.i_pos (size port)
    then (done, get_or port.head port.i_pos 0, record port { i_pos = add_size port.i_pos 1 })
    else (short, 0, port)

unfoldable pub read_bytes_bm : ℕ → MemoryPort → Status × List ℕ × MemoryPort
read_bytes_bm n port =
    let len = sub_size (size port) port.i_pos in
    if leb n len
    then (done, slice port.head port.i_pos n, record port { i_pos = add_size port.i_pos n })
    else (short, slice port.head port.i_pos len, record port { i_pos = add_size port.i_pos len })

pub write_byte_bm : ℕ → MemoryPort → Status × MemoryPort
write_byte_bm b port =
    if ltb port.o_pos (size port)
    then (done, record port { head = set port.head port.o_pos b; o_pos = add_size port.o_pos 1 })
    else (short, port)

unfoldable pub write_bytes_bm : List ℕ → MemoryPort → Status × MemoryPort
write_bytes_bm buf port =
    if leb (add_size port.o_pos (length buf)) (size port)
    then (
      done,
      record port {
        head = overwrite port.head port.o_pos buf;
        o_pos = add_size port.o_pos (length buf);
      },
    )
    else (short, port)

unfoldable pub memory_reader : Reader MemoryPort
memory_reader = record { read_byte = read_byte_bm; read_bytes = read_bytes_bm }

-- Both positions lie in the block, whose size is a `uint32_t`.
pub record IsValid (port : MemoryPort) : Type 0 where
  pub size_fits : size port < 2 ^ 32
  pub i_within : port.i_pos ≤ size port
  pub o_within : port.o_pos ≤ size port
