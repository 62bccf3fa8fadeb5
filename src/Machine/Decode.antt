-- ===== src/Machine/Decode.antt =====
-- `Instruction::Decode` of machine/mipssim.cc with the tables of machine/mipssim.h.
use nachos_3_4_lab.Prelude.{
  ℕ, ◌/◌, ◌^◌, bit_and, bit_or, List, [], ◌∷◌, ◌++◌, ◌==◌, if◌then◌else◌, get_or, replicate,
}
use nachos_3_4_lab.Machine.Alu.{
  AluOp, add, addi, addiu, addu, and_, andi, div, divu, lui, mult_, multu, nor, or_, ori, sll, sllv,
  slt, slti, sltiu, sltu, sra, srav, srl, srlv, sub, subu, xor_, xori,
}

pub data JumpOp : Type 0 where
  beq bgez bgezal bgtz blez bltz bltzal bne j jal jalr jr : JumpOp

pub data LoadOp : Type 0 where
  lb lbu lh lhu lw lwl lwr : LoadOp

pub data StoreOp : Type 0 where
  sb sh sw swl swr : StoreOp

pub data MoveOp : Type 0 where
  mfhi mflo mthi mtlo : MoveOp

-- The opcodes, grouped.
pub data OpCode : Type 0 where
  computing : AluOp → OpCode
  jumping : JumpOp → OpCode
  loading : LoadOp → OpCode
  storing : StoreOp → OpCode
  moving : MoveOp → OpCode
  op_syscall op_unimp op_res : OpCode

pub data Format : Type 0 where
  ifmt jfmt rfmt : Format

-- What `opTable` says of the first six bits.
pub data Primary : Type 0 where
  special bcond : Primary
  opcode : OpCode → Primary

pub record OpInfo : Type 0 where
  pub op_code : Primary
  pub format : Format

abbrev i_type : OpCode → OpInfo
i_type op = record { op_code = opcode op; format = ifmt }

abbrev j_type : OpCode → OpInfo
j_type op = record { op_code = opcode op; format = jfmt }

abbrev unimps : ℕ → List OpInfo
unimps n = replicate n (i_type op_unimp)

abbrev reserved : ℕ → List OpInfo
reserved n = replicate n (i_type op_res)

abbrev pub op_table : List OpInfo
op_table =
    (record { op_code = special; format = rfmt }
      ∷ record { op_code = bcond; format = ifmt }
      ∷ j_type (jumping j)
      ∷ j_type (jumping jal)
      ∷ i_type (jumping beq)
      ∷ i_type (jumping bne)
      ∷ i_type (jumping blez)
      ∷ i_type (jumping bgtz)
      ∷ i_type (computing addi)
      ∷ i_type (computing addiu)
      ∷ i_type (computing slti)
      ∷ i_type (computing sltiu)
      ∷ i_type (computing andi)
      ∷ i_type (computing ori)
      ∷ i_type (computing xori)
      ∷ i_type (computing lui)
      ∷ [])
    ++ (unimps 4
        ++ (reserved 12
            ++ ((i_type (loading lb)
                  ∷ i_type (loading lh)
                  ∷ i_type (loading lwl)
                  ∷ i_type (loading lw)
                  ∷ i_type (loading lbu)
                  ∷ i_type (loading lhu)
                  ∷ i_type (loading lwr)
                  ∷ i_type op_res
                  ∷ i_type (storing sb)
                  ∷ i_type (storing sh)
                  ∷ i_type (storing swl)
                  ∷ i_type (storing sw)
                  ∷ i_type op_res
                  ∷ i_type op_res
                  ∷ i_type (storing swr)
                  ∷ i_type op_res
                  ∷ [])
                ++ (unimps 4 ++ (reserved 4 ++ (unimps 4 ++ reserved 4))))))

abbrev pub special_table : List OpCode
special_table =
    (computing sll
      ∷ op_res
      ∷ computing srl
      ∷ computing sra
      ∷ computing sllv
      ∷ op_res
      ∷ computing srlv
      ∷ computing srav
      ∷ jumping jr
      ∷ jumping jalr
      ∷ op_res
      ∷ op_res
      ∷ op_syscall
      ∷ op_unimp
      ∷ op_res
      ∷ op_res
      ∷ moving mfhi
      ∷ moving mthi
      ∷ moving mflo
      ∷ moving mtlo
      ∷ [])
    ++ (replicate 4 op_res
        ++ ((computing mult_ ∷ computing multu ∷ computing div ∷ computing divu ∷ [])
            ++ (replicate 4 op_res
                ++ ((computing add
                      ∷ computing addu
                      ∷ computing sub
                      ∷ computing subu
                      ∷ computing and_
                      ∷ computing or_
                      ∷ computing xor_
                      ∷ computing nor
                      ∷ op_res
                      ∷ op_res
                      ∷ computing slt
                      ∷ computing sltu
                      ∷ [])
                    ++ replicate 20 op_res))))

-- `Instruction`, decoded.
pub record Instruction : Type 0 where
  pub op_code : OpCode
  pub rs : ℕ
  pub rt : ℕ
  pub rd : ℕ
  pub extra : ℕ

-- The immediate operand, by the format; that of `IFMT` is sign-extended.
unfoldable pub extra_of : Format → ℕ → ℕ
extra_of ifmt value =
    let low = bit_and value 0xffff in if bit_and low 0x8000 == 0 then low else bit_or low 0xffff0000
extra_of rfmt value = bit_and (value / 2 ^ 6) 0x1f
extra_of jfmt value = bit_and value 0x3ffffff

-- `opCode == BCOND`
unfoldable pub bcond_op : ℕ → OpCode
bcond_op i =
    if i == 0
    then jumping bltz
    else if i == 0x10000
    then jumping bgez
    else if i == 0x100000
    then jumping bltzal
    else if i == 0x110000
    then jumping bgezal
    else op_unimp

unfoldable pub op_code_of : Primary → ℕ → OpCode
op_code_of special value = get_or special_table (bit_and value 0x3f) op_res
op_code_of bcond value = bcond_op (bit_and value 0x1f0000)
op_code_of (opcode op) value = op

-- `Instruction::Decode`
unfoldable pub decode : ℕ → Instruction
decode value =
    let info = get_or op_table (bit_and (value / 2 ^ 26) 0x3f) (i_type op_res) in
    record {
      op_code = op_code_of info.op_code value;
      rs = bit_and (value / 2 ^ 21) 0x1f;
      rt = bit_and (value / 2 ^ 16) 0x1f;
      rd = bit_and (value / 2 ^ 11) 0x1f;
      extra = extra_of info.format value;
    }
