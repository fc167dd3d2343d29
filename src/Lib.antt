-- ===== src/Lib.antt =====
-- A model of the EVM JIT, a compiler from EVM bytecode to LLVM IR.
--
-- The compiler cuts the code into basic blocks, compiles each block with the stack items of the block
-- kept as values, and emits checks of gas, of the stack's size and of the memory's size. The model
-- states what the emitted code does, next to what the compiler does while it emits it: a call of the
-- LLVM builder stands for the instruction it makes, and LLVM's integer instructions on words of 256,
-- 64 or 512 bits are numbers with their wrap-around written out.
--
-- Files, with the code that they model:
--   Instruction            libevmjit/Instruction.h: the enumeration, and the value of each enumerator
--   Instruction/PushData   libevmjit/Instruction.cpp: readPushData, skipPushData
--   Compiler/Blocks        libevmjit/Compiler.cpp: createBasicBlocks; libevmjit/BasicBlock.h: BasicBlock
--   Compiler/Blocks/JumpDests  the jump table that the JUMPDEST handler of compileBasicBlock fills
--   Compiler/Arithmetic    libevmjit/Compiler.cpp: the arithmetic, comparison and bitwise handlers
--   LocalStack             libevmjit/BasicBlock.cpp: LocalStack, with Finalize for finalize; Program
--                          holds the calls that a block makes on it
--   Gas/Schedule           libevmjit/JIT.h: JITSchedule; libevmjit/GasMeter.cpp: getStepCost
--   Gas/Check, Gas/Meter   libevmjit/GasMeter.cpp: gas.check, count, commitCostBlock
--   Gas/Dynamic            libevmjit/GasMeter.cpp: countExp, countSStore, countLogData, countSha3Data,
--                          countCopy
--   Memory/Require         libevmjit/Memory.cpp: getRequireFunc
--   Array                  libevmjit/Array.cpp: array.push, array.set, array.get, array.extend, pop;
--                          Refines holds sequences of calls
--   Optimizer              libevmjit/Optimizer.cpp: LowerEVMPass, and LongJmpEliminationPass in its child
--                          LongJmp, with runs of the main function before and after it
--   Memory/Copy            libevmjit/Memory.cpp: copyBytes
--   Memory/Word            libevmjit/Memory.cpp: createFunc (mload, mstore); libevmjit/Ext.cpp:
--                          calldataload
--   Endianness             libevmjit/Endianness.cpp
--   Compiler/Emit          the tree of stack calls, reads and effects that an instruction emits
--   Compiler/Observer      properties of every path through such a tree
--   Compiler/Setting       the members of Compiler that the handlers read, and what they share
--   Compiler/Bytes         libevmjit/Compiler.cpp: the handlers of BYTE and SIGNEXTEND
--   Compiler/Handlers      libevmjit/Compiler.cpp: compileBasicBlock, with Data, Calls and Control for
--                          its cases; the other files below it are about all of them, and OnStack puts
--                          them on LocalStack
--   Compiler/Jumps         libevmjit/Compiler.cpp: resolveJumps; Flow puts it behind createBasicBlocks
--   Compiler/Main          libevmjit/Compiler.cpp: compile, with runs of the main function
--   Ext                    libevmjit/Ext.cpp: the calls of the host, with the wrapper of getCallFunc;
--                          Declarations for the host's functions, Slots for getArgAlloca and
--                          createCABICall
--   Runtime                libevmjit/RuntimeManager.cpp: what the constructor emits, loadTxCtx,
--                          getTxContextItem, registerReturnData, exit; libevmjit/JIT.h: RuntimeData;
--                          libevmjit/Memory.cpp: require. Machine runs the code of blocks on it
--   Cache                  libevmjit/Cache.cpp: init, clear, preload, getObject,
--                          notifyObjectCompiled, with the mutex of the cache
--   Jit                    libevmjit/JIT.cpp: makeCodeId, the code map, checkMemorySize
--   Jit/Engine             libevmjit/JIT.cpp: the constructor, createEngine, reportMemorySize
--   Jit/Options            libevmjit/JIT.cpp: setOption, getCode
--   Jit/Symbols            libevmjit/JIT.cpp: SymbolResolver::findSymbol
--   Jit/Calls              libevmjit/JIT.cpp: call
--   Jit/Execute            libevmjit/JIT.cpp: compile, execute, getReturnData
--   Arith256               libevmjit/Arith256.cpp: division, signed division, exp
--   Prelude                shared names, Boolean tests, lists, bits, powers, integers
--
-- The compiler reads an instruction, counts it on the gas meter, and its handler pops and pushes on the
-- local stack; handlers call the memory, which pays through gas.check, and Ext, which calls the host. The
-- host runs messages through execute, which fills RuntimeData, compiles code that has been asked for often
-- enough or takes it from the cache of objects, and the compiled code, which keeps its variables in
-- what RuntimeManager sets up, calls the host back through call. Division reaches Arith256
-- through LowerEVMPass of libevmjit/Optimizer.cpp, which puts its functions in place of LLVM's
-- instructions.
--
-- Fuel: the loop of createBasicBlocks has one unit for each byte and one more, since a round passes a
-- byte; the loop of exp has 257, since a round drops one of the 256 bits of the exponent. Division
-- recurses on the shift count that the code counts down. The loop of compileBasicBlock has one unit for
-- each byte of the block and one more, and every theorem on it shows that it reaches the block's end. A run
-- of the main function is compared with the EVM, or with a run after a pass, for any fuel, since code may
-- loop as long as its gas lasts.
--
-- Parameters: `ctlz`, the intrinsic of LLVM, with its documented behaviour as a hypothesis
-- (Arith256/Division/Zeros has a function that meets it); the numbers of the protocol revisions, which
-- evmc fixes; `realloc` of the C library; `poison`, what the machine makes of a value that LLVM leaves
-- undefined; and what LLVM's division instructions compute, as its
-- language reference says, for the pass that replaces them;
-- the numbers of evmc's kinds of a call; the host, whose answers the emitted code reads, among them the
-- transaction context, the code of an account, and the bytes of the call data, of return data and of other
-- code (World in Runtime/Machine); the address that `realloc` moves the memory to; the file
-- system of the cache; LLVM's search for symbols in the process; `std::stoul`; and the tool chain, the
-- stored objects and the compiled code that `execute` uses.
--
-- Not modelled: the buffer that compile of libevmjit/Compiler.cpp sets up for `setjmp`; the LLVM types,
-- the pointers to fields and the insert points; LLVM's engine, its pass managers and its own passes; the
-- parser of the command line; the hash, which is a copy of a library, and logging (libevmjit/Utils.cpp);
-- statistics (libevmjit/ExecStats.cpp), which nothing else reads; and the addresses of array elements and
-- the release of an array (array.getPtr and array.free of libevmjit/Array.cpp).
pub mod Prelude
pub mod Runtime
pub mod Cache
pub mod Instruction
pub mod Compiler
pub mod LocalStack
pub mod Gas
pub mod Memory
pub mod Array
pub mod Optimizer
pub mod Arith256
pub mod Endianness
pub mod Ext
pub mod Jit
